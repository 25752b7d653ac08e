-- ===== src/DotPrinters/InstSetTraits.antt =====
-- pass/include/InstSetDOTTraits.h: a node is a component, by the address of its set.
use Prim.Native.String.{String, ◌++◌ as ◌<>◌}
use icsa_dswp.Prelude.{Option, none, some, [], ◌∷◌}
use icsa_dswp.Std.{Ptr}
use icsa_dswp.Std.PtrSet.{PtrSet}
use icsa_dswp.Outcome.{Outcome, ok, err, bad_dereference, ◌>>=◌}
use icsa_dswp.DependenceTraits.{Node, Wrapper, DotTraits, nodes_begin, get_value}
use icsa_dswp.DependenceTraits.NodeIterator
use icsa_dswp.Util.{instruction_to_function_name}
use icsa_dswp.Psg
use icsa_dswp.SourceToPsgPrinter.{set_at}
use icsa_dswp.DotPrinters.{Environment}

-- `*S->begin()` of the set that a pointer to a component points to
abbrev pub first_of_set : Option PtrSet → Outcome Ptr
first_of_set (some (inst ∷ s)) = ok inst
first_of_set _ = err bad_dereference

-- `getGraphName`
unfoldable pub get_graph_name : (Ptr → Ptr) → Psg.Pass → Environment → Wrapper → Outcome String
unfolding NodeIterator.dereference set_at instruction_to_function_name
get_graph_name address psg env w = do
  node ← NodeIterator.dereference w (nodes_begin w)
  value ← get_value node
  inst ← first_of_set (set_at address psg.sccs value)
  ok ("Dependence graph for '" <> instruction_to_function_name env.parents inst <> "' function")

-- the loop of `getNodeLabel` over the set
abbrev pub print_insts : (Ptr → String) → PtrSet → String
print_insts print [] = ""
print_insts print (inst ∷ s) = print inst <> "\n" <> print_insts print s

-- `getNodeLabel`
unfoldable pub get_node_label : (Ptr → Ptr) → Psg.Pass → Environment → Node → Outcome String
unfolding set_at
get_node_label address psg env n = elim (set_at address psg.sccs n.value) [
  | none ↦ err bad_dereference
  | some s ↦ ok (print_insts env.print_inst s)
]

abbrev pub traits : (Ptr → Ptr) → Psg.Pass → Environment → DotTraits
traits address psg env = record {
  get_graph_name = get_graph_name address psg env;
  get_node_label = get_node_label address psg env;
}
