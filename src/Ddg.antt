-- ===== src/Ddg.antt =====
-- pass/src/DDG.cpp: the data dependence graph, by the def-use chains.
pub mod Edges
use icsa_dswp.Prelude.{List, [], ◌∷◌}
use icsa_dswp.Std.{Ptr}
use icsa_dswp.Dependence.{DependenceGraph, add_node, add_edge}
use icsa_dswp.Ir.{User, instruction, other, Function}

-- the first loop of `runOnFunction`, which the memory dependence pass has too
unfoldable pub add_insts : List Ptr → DependenceGraph → DependenceGraph
unfolding add_node
add_insts [] g = g
add_insts (i ∷ is) g = add_insts is (add_node i g)

-- the inner loop of the second one
unfoldable pub add_users : Ptr → List User → DependenceGraph → DependenceGraph
unfolding add_edge
add_users i [] g = g
add_users i (instruction u ∷ us) g = add_users i us (add_edge i u g)
add_users i (other ∷ us) g = add_users i us g

unfoldable pub add_uses : Function → List Ptr → DependenceGraph → DependenceGraph
unfolding add_users
add_uses f [] g = g
add_uses f (i ∷ is) g = add_uses f is (add_users i (f.users i) g)

-- `DataDependenceGraphPass::runOnFunction`: the new value of `DDG`.
unfoldable pub run_on_function : Function → DependenceGraph → DependenceGraph
unfolding add_insts add_uses
run_on_function f ddg = add_uses f f.insts (add_insts f.insts ddg)
