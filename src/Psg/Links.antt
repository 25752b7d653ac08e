-- ===== src/Psg/Links.antt =====
-- What the third loop of the component graph pass does: an edge for each link between components.
use icsa_dswp.Prelude.{
  ◌≡◌, refl, sym, subst, ◌∙◌, Bool, true, false, not, ◌&&◌, ◌||◌, List, [], ◌∷◌, arith, ◌==◌,
  if◌then◌else◌, contains, Bool-cases, inl, inr,
}
use icsa_dswp.Std.{Ptr, nullptr}
use icsa_dswp.Std.PtrSet.{PtrSet}
use icsa_dswp.Std.PtrMap
use icsa_dswp.Std.PtrMap.{PtrMap}
use icsa_dswp.Outcome.{ok, for_each}
use icsa_dswp.Dependence.{DependenceGraph, add_edge, has_node, dependants, IsClosed}
use icsa_dswp.Dependence.Laws.{get_dependants_lem}
use icsa_dswp.Dependence.Adds.{Adds, Adds-nil, Adds-edge, Adds-trans}
use icsa_dswp.GraphUtils.{root_of}
use icsa_dswp.Psg.{Pass, connect, connect_all}

module _ (address : Ptr → Ptr) where
  module _ (component : PtrMap Ptr) where
    abbrev pub scc_of : Ptr → Ptr
    scc_of n = address (root_of component n)

    -- What one dependence of `j` on `i` adds.
    abbrev pub link : Ptr → Ptr → Ptr → Ptr → Bool
    link i j s t = scc_of i == s && scc_of j == t && not (scc_of i == scc_of j)

    abbrev pub links_from : Ptr → PtrSet → Ptr → Ptr → Bool
    links_from i [] s t = false
    links_from i (j ∷ js) s t = link i j s t || links_from i js s t

    -- What the third loop did to the pass.
    pub record Connected (p q : Pass) (new : Ptr → Ptr → Bool) : Type 0 where
      pub sccs : q.sccs ≡ p.sccs
      pub insts : q.inst_to_scc ≡ p.inst_to_scc
      pub adds : Adds p.psg q.psg new

    abbrev pub Known : Pass → Ptr → Type 0
    Known p n =
        (PtrMap.has_key component n ≡ true) × (PtrMap.has_key p.sccs (root_of component n) ≡ true)

    Known-still :
        {p q : Pass} {new : Ptr → Ptr → Bool}
        → Connected p q new
        → (n : Ptr) → Known p n
        → Known q n
    Known-still c n (k, l) =
        (k, subst (λ m. PtrMap.has_key m (root_of component n) ≡ true) (sym c.sccs) l)

    connect_runs :
        (i j : Ptr) (p : Pass)
        → Known p i
        → Known p j
        → connect address component i j p
          ≡ ok (record p {
            psg = if scc_of i == scc_of j then p.psg else add_edge (scc_of i) (scc_of j) p.psg;
          })
    unfolding connect
    connect_runs i j p hi hj = rw (PtrMap.at_lem component i nullptr hi.0) (
        rw (PtrMap.at_lem component j nullptr hj.0) (
          rw (PtrMap.touch_there (root_of component i) [] p.sccs hi.1)
            (rw (PtrMap.touch_there (root_of component j) [] p.sccs hj.1))))

    connect_lem :
        (i j : Ptr) (p : Pass)
        → Known p i
        → Known p j
        → (q : Pass) × (connect address component i j p ≡ ok q) × Connected p q (link i j)
    connect_lem i j p hi hj = elim (Bool-cases (scc_of i == scc_of j)) [
      | inl same ↦ (
        p,
        rw same at (connect_runs i j p hi hj),
        record {
          sccs = refl;
          insts = refl;
          adds = Adds-trans (Adds-nil p.psg) (Adds-nil p.psg) (λ s t. ground arith);
        },
      )
      | inr other ↦ (
        record p { psg = add_edge (scc_of i) (scc_of j) p.psg },
        rw other at (connect_runs i j p hi hj),
        record {
          sccs = refl;
          insts = refl;
          adds =
              Adds-trans (Adds-edge (scc_of i) (scc_of j) p.psg) (Adds-nil _) (λ s t. ground arith);
        },
      )
    ]

    connect_each :
        (i : Ptr) (js : PtrSet) (p : Pass)
        → Known p i
        → ((j : Ptr) → contains js j ≡ true → Known p j)
        → (q : Pass) × (for_each (connect address component i) js p ≡ ok q)
          × Connected p q (links_from i js)
    unfolding for_each
    connect_each i [] p hi hj =
        (p, refl, record { sccs = refl; insts = refl; adds = Adds-nil p.psg })
    connect_each i (j ∷ js) p hi hj =
        let (p₁, ran₁, first) = connect_lem i j p hi (hj j (ground arith)) in
        let (q, ran₂, second) =
          connect_each i js p₁ (Known-still first i hi)
            (λ k m. Known-still first k (hj k (ground arith))) in
        (
          q,
          rw ran₁ ran₂,
          record {
            sccs = second.sccs ∙ first.sccs;
            insts = second.insts ∙ first.insts;
            adds = Adds-trans first.adds second.adds (λ s t. refl);
          },
        )

    module _ (pdg : DependenceGraph) where
      abbrev pub links : List Ptr → Ptr → Ptr → Bool
      links [] s t = false
      links (i ∷ is) s t = links_from i (dependants pdg i) s t || links is s t

      pub connect_all_lem :
          (is : List Ptr) (p : Pass)
          → IsClosed pdg
          → ((n : Ptr) → has_node pdg n ≡ true → Known p n)
          → ((i : Ptr) → contains is i ≡ true → has_node pdg i ≡ true)
          → (q : Pass) × (connect_all address pdg component is p ≡ ok q) × Connected p q (links is)
      unfolding connect_all for_each
      connect_all_lem [] p closed known nodes =
          (p, refl, record { sccs = refl; insts = refl; adds = Adds-nil p.psg })
      connect_all_lem (i ∷ is) p closed known nodes =
          let node = nodes i (ground arith) in
          let (p₁, ran₁, first) =
            connect_each i (dependants pdg i) p (known i node) (λ j m. known j (closed i j m)) in
          let (q, ran₂, second) =
            connect_all_lem is p₁ closed (λ n h. Known-still first n (known n h))
              (λ j m. nodes j (ground arith)) in
          (
            q,
            rw (get_dependants_lem pdg i node) (rw ran₁ ran₂),
            record {
              sccs = second.sccs ∙ first.sccs;
              insts = second.insts ∙ first.insts;
              adds = Adds-trans first.adds second.adds (λ s t. refl);
            },
          )
