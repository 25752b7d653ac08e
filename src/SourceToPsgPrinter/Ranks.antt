-- ===== src/SourceToPsgPrinter/Ranks.antt =====
-- The ranks that the report prints: a dependence leads to a higher rank.
use icsa_dswp.Prelude.{
  ◌<◌, ◌≡◌, refl, sym, ap, ◌∙◌, subst, true, false, inl, inr, List, [], ◌∷◌, length, arith, ◌==◌,
  ==_iff, Bool-cases, contains,
}
use icsa_dswp.Std.{Ptr, nullptr}
use icsa_dswp.Std.PtrMap.{PtrMap}
use icsa_dswp.Outcome.{ok}
use icsa_dswp.Dependence.{DependenceGraph, has_node, has_edge, IsClosed}
use icsa_dswp.Dependence.Laws.{edge_source}
use icsa_dswp.Dependence.Order.{IsOrdered}
use icsa_dswp.GraphUtils.{topsort}
use icsa_dswp.GraphUtils.Walk.{Strong}
use icsa_dswp.GraphUtils.Topsort.Rounds.{IsTopsorted}
use icsa_dswp.GraphUtils.Topsort.Acyclic.{IsAcyclic, topsort_no_cycle}
use icsa_dswp.Psg
use icsa_dswp.Psg.{get_scc}
use icsa_dswp.Psg.Links.{scc_of}
use icsa_dswp.Psg.Condensation.{IsCondensation, released}
use icsa_dswp.Psg.Acyclic
use icsa_dswp.Psg.Acyclic.{AreDistinct, psg_acyclic, get_scc_lem}
use icsa_dswp.SourceToPsgPrinter.{index_of}

index_of_lt :
    (g : DependenceGraph) (before l : List Ptr) (x y : Ptr)
    → IsTopsorted g before l
    → has_edge g x y ≡ true
    → contains before x ≡ false
    → contains l y ≡ true
    → index_of l x < index_of l y
index_of_lt g before [] x y t e out there = absurd (ground arith)
index_of_lt g before (z ∷ l) x y t e out there = elim (Bool-cases (z == y)) [
  | inl here ↦ absurd (
      ground (arith, t.0 x (subst (λ v. has_edge g x v ≡ true) (sym ((==_iff z y).0 here)) e), out))
  | inr later ↦ ground (arith, index_of_lt g (z ∷ before) l x y t.1 e, out, later, there)
]

index_of_bound : (l : List Ptr) (x : Ptr) → contains l x ≡ true → index_of l x < length l
index_of_bound [] x h = absurd (ground arith)
index_of_bound (z ∷ l) x h = ground (arith, index_of_bound l x)

module _ (address : Ptr → Ptr) (pdg : DependenceGraph) (ordered : IsOrdered pdg)
    (closed : IsClosed pdg) (proper : has_node pdg nullptr ≡ false) (stale : PtrMap Ptr)
    (psg : Psg.Pass) (distinct : AreDistinct address)
    (ran : Psg.run_on_function address pdg (released stale) ≡ ok psg) where
  abbrev component : PtrMap Ptr
  component = Acyclic.component address pdg ordered closed proper stale psg distinct ran

  condensed : IsCondensation address pdg component psg
  condensed = Acyclic.condensed address pdg ordered closed proper stale psg distinct ran

  pub psg-IsAcyclic : IsAcyclic psg.psg
  psg-IsAcyclic = record {
    no_cycle = psg_acyclic address pdg ordered closed proper stale psg distinct ran;
    no_loop = λ s. elim (Bool-cases (has_edge psg.psg s s)) [
      | inr none ↦ none
      | inl loop ↦
          let (a, b, dep, at_s, at_t, differ) = (condensed.edges s s).0 loop in absurd (differ refl)
    ];
  }

  -- If different sets have different addresses, then after the component graph pass `topsort`
  -- returns, and a dependence between two instructions that do not both reach each other leads from
  -- a component of lower rank to one of higher rank, which is below the number of components.
  pub rank_lem :
      (a b : Ptr)
      → has_edge pdg a b ≡ true
      → ¬ Strong pdg a b
      → (ts : List Ptr) × (s : Ptr) × (t : Ptr) × (topsort psg.psg ≡ ok ts)
        × (get_scc psg a ≡ ok s)
        × (get_scc psg b ≡ ok t)
        × (index_of ts s < index_of ts t)
        × (index_of ts t < length ts)
  rank_lem a b e apart =
      let (ts, runs, all, unique, sorted) =
        topsort_no_cycle psg.psg condensed.ordered
          (Acyclic.psg-IsClosed address pdg ordered closed proper stale psg distinct ran)
          psg-IsAcyclic in
      let runs_at = Acyclic.get_scc_runs address pdg ordered closed proper stale psg distinct ran in
      let s = scc_of address component a in
      let t = scc_of address component b in
      let a_node = edge_source pdg a b e in
      let b_node = closed a b e in
      let listed : contains ts t ≡ true = all t ∙ (condensed.nodes t).1 (b, b_node, refl) in
      let edge : has_edge psg.psg s t ≡ true = (condensed.edges s t).1 (
        a,
        b,
        e,
        refl,
        refl,
        λ same. apart (
            (get_scc_lem address pdg ordered closed proper stale psg distinct ran a b a_node
                b_node).0
              (runs_at a a_node ∙ ap ok same ∙ sym (runs_at b b_node))),
      ) in
      (
        ts,
        s,
        t,
        runs,
        runs_at a a_node,
        runs_at b b_node,
        index_of_lt psg.psg [] ts s t sorted edge refl listed,
        index_of_bound ts t listed,
      )
