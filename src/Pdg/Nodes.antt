-- ===== src/Pdg/Nodes.antt =====
-- The nodes of the program dependence graph, and that its edges stay among them.
use icsa_dswp.Prelude.{◌≡◌, inl, inr, sym, ◌∙◌, true, arith, Bool-ext}
use icsa_dswp.Std.{Ptr}
use icsa_dswp.Std.PtrMap
use icsa_dswp.Dependence.{DependenceGraph, empty, has_node, IsClosed}
use icsa_dswp.Dependence.Laws.{edge_source}
use icsa_dswp.Dependence.Order.{IsOrdered}
use icsa_dswp.Ir.{Function}
use icsa_dswp.Pdg.{copy_nodes}
use icsa_dswp.Pdg.Loops.{copy_nodes_lem, phi_constant}
use icsa_dswp.Pdg.Edges.{
  Controls, Depends, uses, memory, control, constant, pdg, adds, has_edge-run, pdg_lem,
}

-- The graphs are about one function: what the dependences name are its instructions.
pub record AreInside (f : Function) (cdg mdg ddg : DependenceGraph) : Type 0 where
  pub ddg_closed : IsClosed ddg
  pub mdg_closed : IsClosed mdg
  pub same_nodes : (n : Ptr) → has_node mdg n ≡ has_node ddg n
  pub branches : (x y : Ptr) → Controls f cdg x y → has_node ddg x ≡ true
  pub members : (x y : Ptr) → Controls f cdg x y → has_node ddg y ≡ true
  pub constants : (x y : Ptr) → phi_constant f x y ≡ true → has_node ddg x ≡ true

module _ (f : Function) (cdg mdg ddg : DependenceGraph) (cdg_ordered : IsOrdered cdg)
    (mdg_ordered : IsOrdered mdg) (ddg_ordered : IsOrdered ddg)
    (inside : AreInside f cdg mdg ddg) where
  source_inside : (x y : Ptr) → Depends f cdg mdg ddg x y → has_node ddg x ≡ true
  source_inside x y (uses e) = edge_source ddg x y e
  source_inside x y (memory e) = sym (inside.same_nodes x) ∙ edge_source mdg x y e
  source_inside x y (control c) = inside.branches x y c
  source_inside x y (constant node p) = inside.constants x y p

  target_inside : (x y : Ptr) → Depends f cdg mdg ddg x y → has_node ddg y ≡ true
  target_inside x y (uses e) = inside.ddg_closed x y e
  target_inside x y (memory e) = sym (inside.same_nodes y) ∙ inside.mdg_closed x y e
  target_inside x y (control c) = inside.members x y c
  target_inside x y (constant node p) = node

  has_node-start : (n : Ptr) → has_node (copy_nodes ddg.nodes empty) n ≡ has_node ddg n
  unfolding PtrMap.find
  has_node-start n =
      ground (arith, (copy_nodes_lem ddg.nodes empty).0 n, PtrMap.contains-keys ddg.nodes n)

  abbrev graph : DependenceGraph
  graph = pdg f cdg mdg ddg cdg_ordered mdg_ordered ddg_ordered

  pub has_node-run : (n : Ptr) → has_node graph n ≡ has_node ddg n
  has_node-run n = Bool-ext _ _ (
    λ h. elim (sources n h) [
      | inl start ↦ sym (has_node-start n) ∙ start
      | inr (y, new) ↦ source_inside n y (
          (pdg_lem f cdg mdg ddg cdg_ordered mdg_ordered ddg_ordered n y).0
            (has_edge-run f cdg mdg ddg cdg_ordered mdg_ordered ddg_ordered n y ∙ new))
    ],
    λ h. kept n (has_node-start n ∙ h),
  )
    where
      open adds f cdg mdg ddg cdg_ordered mdg_ordered ddg_ordered use {sources, kept}

  pub run-IsClosed : IsClosed graph
  run-IsClosed x y e =
      has_node-run y
      ∙ target_inside x y ((pdg_lem f cdg mdg ddg cdg_ordered mdg_ordered ddg_ordered x y).0 e)

  -- If the four sources of dependences are about the instructions of one function, the program
  -- dependence graph has the nodes of the data dependence graph and every dependant is a node, so
  -- that `getDependants` never throws on one.
  pub pdg_nodes : ((n : Ptr) → has_node graph n ≡ has_node ddg n) × IsClosed graph
  pdg_nodes = (has_node-run, run-IsClosed)
