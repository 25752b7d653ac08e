-- ===== src/DotPrinters/BlockTraits.antt =====
-- pass/include/BasicBlockDOTTraits.h
use Prim.Native.String.{String, ◌++◌ as ◌<>◌}
use icsa_dswp.Outcome.{Outcome, ok, ◌>>=◌}
use icsa_dswp.DependenceTraits.{Node, Wrapper, DotTraits, nodes_begin, get_value}
use icsa_dswp.DependenceTraits.NodeIterator
use icsa_dswp.Util.{basic_block_to_function_name}
use icsa_dswp.DotPrinters.{Environment}

-- `getGraphName`
unfoldable pub get_graph_name : Environment → Wrapper → Outcome String
unfolding NodeIterator.dereference basic_block_to_function_name
get_graph_name env w = do
  node ← NodeIterator.dereference w (nodes_begin w)
  value ← get_value node
  ok ("Dependence graph for '" <> basic_block_to_function_name env.parents value <> "' function")

-- `getNodeLabel`
unfoldable pub get_node_label : Environment → Node → Outcome String
get_node_label env n = ok (env.label_block n.value (env.parents.function n.value))

abbrev pub traits : Environment → DotTraits
traits env = record { get_graph_name = get_graph_name env; get_node_label = get_node_label env }
