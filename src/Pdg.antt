-- ===== src/Pdg.antt =====
-- pass/src/PDG.cpp: the program dependence graph, from the data, memory and control dependences.
pub mod Loops
pub mod Edges
pub mod Nodes
use icsa_dswp.Prelude.{none, some, List, [], ◌∷◌, if◌then◌else◌}
use icsa_dswp.Std.{Ptr}
use icsa_dswp.Std.PtrSet.{PtrSet}
use icsa_dswp.Std.PtrMap.{PtrMap}
use icsa_dswp.Dependence.{DependenceGraph, add_node, add_edge}
use icsa_dswp.Ir.{Incoming, Function}

-- the first loop of `runOnFunction`
unfoldable pub copy_nodes : PtrMap PtrSet → DependenceGraph → DependenceGraph
unfolding add_node
copy_nodes [] pdg = pdg
copy_nodes ((n, s) ∷ m) pdg = copy_nodes m (add_node n pdg)

-- `for (... target : I->second) PDG.addEdge(source, target)`
unfoldable pub add_targets : Ptr → List Ptr → DependenceGraph → DependenceGraph
unfolding add_edge
add_targets source [] pdg = pdg
add_targets source (target ∷ ts) pdg = add_targets source ts (add_edge source target pdg)

-- the loops that copy the data and the memory dependences
unfoldable pub copy_edges : PtrMap PtrSet → DependenceGraph → DependenceGraph
unfolding add_targets
copy_edges [] pdg = pdg
copy_edges ((source, s) ∷ m) pdg = copy_edges m (add_targets source s pdg)

module _ (f : Function) where
  -- the control dependences of one block: from `source` to the instructions of each block
  unfoldable pub add_blocks : Ptr → PtrSet → DependenceGraph → DependenceGraph
  unfolding add_targets
  add_blocks source [] pdg = pdg
  add_blocks source (block ∷ bs) pdg =
      add_blocks source bs (add_targets source (f.block_insts block) pdg)

  unfoldable pub add_control : PtrMap PtrSet → DependenceGraph → DependenceGraph
  unfolding add_blocks
  add_control [] pdg = pdg
  add_control ((block, s) ∷ m) pdg = add_control m (add_blocks (f.back block) s pdg)

  -- the loop over the incoming values of one phi node
  unfoldable pub add_incoming : Ptr → List Incoming → DependenceGraph → DependenceGraph
  unfolding add_edge
  add_incoming target [] pdg = pdg
  add_incoming target (v ∷ vs) pdg =
      add_incoming target vs (if v.is_constant then add_edge (f.back v.block) target pdg else pdg)

  unfoldable pub add_phis : PtrMap PtrSet → DependenceGraph → DependenceGraph
  unfolding add_incoming
  add_phis [] pdg = pdg
  add_phis ((target, s) ∷ m) pdg =
      add_phis m (elim (f.phi target) [ none ↦ pdg | some vs ↦ add_incoming target vs pdg ])

  -- `ProgramDependenceGraphPass::runOnFunction`: the new value of `PDG`.
  unfoldable pub run_on_function :
      (cdg mdg ddg : DependenceGraph) → DependenceGraph → DependenceGraph
  unfolding copy_nodes copy_edges add_control add_phis
  run_on_function cdg mdg ddg pdg =
      let with_nodes = copy_nodes ddg.nodes pdg in
      let with_data = copy_edges ddg.nodes with_nodes in
      let with_memory = copy_edges mdg.nodes with_data in
      let with_control = add_control cdg.nodes with_memory in add_phis ddg.nodes with_control
