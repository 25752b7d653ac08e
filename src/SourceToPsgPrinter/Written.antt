-- ===== src/SourceToPsgPrinter/Written.antt =====
-- The whole pass: it writes the report of the function.
use Prim.Native.String.{◌++◌ as ◌<>◌}
use icsa_dswp.Prelude.{
  ◌≡◌, refl, ◌∙◌, subst, true, false, Option, none, some, inl, inr, [], ◌∷◌, arith, ◌==◌, ==_iff,
  Bool-cases, contains,
}
use icsa_dswp.Std.{Ptr, nullptr}
use icsa_dswp.Std.PtrSet.{PtrSet}
use icsa_dswp.Std.PtrMap
use icsa_dswp.Std.PtrMap.{PtrMap}
use icsa_dswp.Outcome.{ok}
use icsa_dswp.Dependence.{DependenceGraph, has_node, IsClosed}
use icsa_dswp.Dependence.Order.{IsOrdered}
use icsa_dswp.GraphUtils.{root_of}
use icsa_dswp.Psg
use icsa_dswp.Psg.Links.{scc_of}
use icsa_dswp.Psg.Condensation.{IsCondensation, released}
use icsa_dswp.Psg.Acyclic
use icsa_dswp.Psg.Acyclic.{AreDistinct}
use icsa_dswp.SourceToPsgPrinter.{set_at, first_inst, run_on_function}

-- With distinct addresses a pointer leads to the set of its root.
pub set_at-find :
    (address : Ptr → Ptr) (m : PtrMap PtrSet) (root : Ptr)
    → AreDistinct address
    → set_at address m (address root) ≡ PtrMap.find m root
unfolding set_at PtrMap.find
set_at-find address [] root distinct = refl
set_at-find address ((k, s) ∷ m) root distinct = elim (Bool-cases (k == root)) [
  | inl same ↦ ground (arith, same, ==_iff k root, set_at-find address m root distinct)
  | inr other ↦ ground (
    arith,
    other,
    ==_iff (address k) (address root),
    distinct k root,
    ==_iff k root,
    set_at-find address m root distinct,
  )
]

module _ (address : Ptr → Ptr) (pdg : DependenceGraph) (ordered : IsOrdered pdg)
    (closed : IsClosed pdg) (proper : has_node pdg nullptr ≡ false) (stale : PtrMap Ptr)
    (psg : Psg.Pass) (distinct : AreDistinct address)
    (ran : Psg.run_on_function address pdg (released stale) ≡ ok psg) where
  abbrev component : PtrMap Ptr
  component = Acyclic.component address pdg ordered closed proper stale psg distinct ran

  condensed : IsCondensation address pdg component psg
  condensed = Acyclic.condensed address pdg ordered closed proper stale psg distinct ran

  -- The set at the address of a component has an instruction of the graph in front.
  full :
      (n : Ptr)
      → has_node pdg n ≡ true
      → (inst : Ptr) × (s : PtrSet) × (set_at address psg.sccs (scc_of address component n)
          ≡ some (inst ∷ s))
        × (has_node pdg inst ≡ true)
  full n node =
      let root = root_of component n in
      let there : contains (PtrMap.get_or psg.sccs root []) n ≡ true =
        ground (arith, condensed.sccs root n, node, ==_iff root root) in
      take (PtrMap.find psg.sccs root) refl there
    where
      take :
          (o : Option PtrSet)
          → PtrMap.find psg.sccs (root_of component n) ≡ o
          → contains (PtrMap.get_or psg.sccs (root_of component n) []) n ≡ true
          → (inst : Ptr) × (s : PtrSet) × (set_at address psg.sccs (scc_of address component n)
              ≡ some (inst ∷ s))
            × (has_node pdg inst ≡ true)
      take none e there = absurd (ground (arith, e, there))
      take (some []) e there = absurd (ground (arith, e, there))
      take (some (inst ∷ s)) e there = (
        inst,
        s,
        set_at-find address psg.sccs (root_of component n) distinct ∙ e,
        ground (arith, condensed.sccs (root_of component n) inst, e, ==_iff inst inst),
      )

  -- After the component graph pass on a graph with a node, the first instruction of the first
  -- component is read without a null pointer or an end iterator, and is a node.
  pub first_inst_lem :
      (n : Ptr)
      → has_node pdg n ≡ true
      → (inst : Ptr) × (first_inst address psg ≡ ok inst) × (has_node pdg inst ≡ true)
  unfolding first_inst PtrMap.find
  first_inst_lem n node =
      front psg.psg.nodes refl ((condensed.nodes (scc_of address component n)).1 (n, node, refl))
    where
      front :
          (nodes : PtrMap PtrSet)
          → psg.psg.nodes ≡ nodes
          → has_node psg.psg (scc_of address component n) ≡ true
          → (inst : Ptr) × (first_inst address psg ≡ ok inst) × (has_node pdg inst ≡ true)
      front [] e there = absurd (ground (arith, e, there))
      front ((scc, deps) ∷ m) e there =
          let here : has_node psg.psg scc ≡ true = rw e (ground (arith, ==_iff scc scc)) in
          let (n', node', at) = (condensed.nodes scc).0 here in
          let (inst, s, found, inside) = full n' node' in
          let found' : set_at address psg.sccs scc ≡ some (inst ∷ s) =
            subst (λ x. set_at address psg.sccs x ≡ some (inst ∷ s)) at found in
          (inst, rw (e, first_inst) (rw found'), inside)
