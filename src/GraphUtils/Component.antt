-- ===== src/GraphUtils/Component.antt =====
-- `assignComponent`: it never throws on a closed graph, needs no more nested calls than there are
-- nodes without a component, and gives the root to the nodes that it can reach.
pub mod Runs
use icsa_dswp.Prelude.{
  ℕ, zero, suc, ◌<◌, ◌≡◌, ◌≢◌, refl, ◌∙◌, true, false, not, inl, inr, List, [], ◌∷◌, arith, ◌==◌,
  Bool-cases, contains,
}
use icsa_dswp.Std.{Ptr, nullptr}
use icsa_dswp.Std.PtrMap
use icsa_dswp.Std.PtrMap.{PtrMap}
use icsa_dswp.Outcome.{Outcome, ok, ◌>>=◌, for_each}
use icsa_dswp.Dependence.{DependenceGraph, has_node, dependants, get_dependants, IsClosed}
use icsa_dswp.Dependence.Laws.{get_dependants_lem}
use icsa_dswp.GraphUtils.{root_of, taken, assign_component}
use icsa_dswp.GraphUtils.Lists.{unmarked, unmarked_le, unmarked_lt}
use Runs.{Assigned, Assigned-nil, Assigned-skip, Assigned-seq, Assigned-visit}

module _ (g : DependenceGraph) (closed : IsClosed g) (root : Ptr) (proper : root ≢ nullptr) where
  abbrev work : PtrMap Ptr → ℕ
  work c = unmarked (taken c) (PtrMap.keys g.nodes)

  -- The run ends without an exception and has given the root to what the starts reach.
  abbrev pub Assigns : Outcome (PtrMap Ptr) → PtrMap Ptr → List Ptr → Type 0
  Assigns o c starts = (d : PtrMap Ptr) × (o ≡ ok d) × Assigned g root c d starts

  children :
      (body : Ptr → PtrMap Ptr → Outcome (PtrMap Ptr)) (bound : ℕ)
      → ((u : Ptr) (c : PtrMap Ptr)
          → has_node g u ≡ true
          → work c < bound
          → Assigns (body u c) c (u ∷ []))
      → (rs : List Ptr) (c : PtrMap Ptr) → ((r : Ptr) → contains rs r ≡ true → has_node g r ≡ true)
      → work c < bound
      → Assigns (for_each body rs c) c rs
  unfolding for_each
  children body bound visit [] c nodes h = (c, refl, Assigned-nil g root c)
  children body bound visit (r ∷ rs) c nodes h =
      let (c₁, ran₁, first) = visit r c (nodes r (ground arith)) h in
      let (c₂, ran₂, second) =
        children body bound visit rs c₁ (λ q m. nodes q (ground arith))
          (omega (
            arith,
            unmarked_le (taken c) (taken c₁) (PtrMap.keys g.nodes)
                (λ n m. ground (arith, first.kept n)),
          )) in
      (c₂, rw ran₁ ran₂, Assigned-seq g root c c₁ c₂ r rs first second)

  -- On a graph with closed edges and a root that is not null, from a node, and with more fuel than
  -- there are nodes without a root, `assignComponent` returns. It gives the root only to nodes that
  -- had none and that the start reaches through nodes without a root; the start and each dependant
  -- of a node that it changes have a root afterwards. No other root changes.
  pub assign_component_lem :
      (fuel : ℕ) (u : Ptr) (c : PtrMap Ptr)
      → has_node g u ≡ true
      → work c < fuel
      → Assigns (assign_component g fuel root u c) c (u ∷ [])
  unfolding assign_component
  assign_component_lem zero u c node h = absurd (omega arith)
  assign_component_lem (suc fuel) u c node h = elim (Bool-cases (root_of c u == nullptr)) [
    | inr seen ↦ (c, rw (seen, assign_component), Assigned-skip g root c u (ground arith))
    | inl free ↦
        let (d, ran, deps) =
          children (assign_component g fuel root) fuel (assign_component_lem fuel) (dependants g u)
            (PtrMap.assign u root c) (closed u)
            (omega (
              arith,
              unmarked_lt (taken c) (taken (PtrMap.assign u root c)) (PtrMap.keys g.nodes) u more
                  (PtrMap.contains-keys g.nodes u ∙ node) (ground arith) given,
            )) in
        (
          d,
          simp (free, get_dependants_lem g u node, ran, assign_component),
          Assigned-visit g root c d u proper (ground arith) node deps,
        )
  ]
    where
      given : taken (PtrMap.assign u root c) u ≡ true
      given = ground (arith, PtrMap.find-assign u root c u)

      more : (n : Ptr) → taken c n ≡ true → taken (PtrMap.assign u root c) n ≡ true
      more n m = ground (arith, PtrMap.find-assign u root c n)
