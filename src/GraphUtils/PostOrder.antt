-- ===== src/GraphUtils/PostOrder.antt =====
-- `postOrderEnumerate`: it never throws on a closed graph, needs no more nested calls than there
-- are unvisited nodes, and lists the nodes sorted by components.
pub mod Runs
use icsa_dswp.Prelude.{
  ℕ, zero, suc, ◌<◌, ◌≡◌, refl, sym, ◌∙◌, true, false, ◌||◌, inl, inr, List, [], ◌∷◌, ◌++◌, arith,
  ◌==◌, Bool-cases, contains,
}
use icsa_dswp.Std.{Ptr}
use icsa_dswp.Std.PtrMap
use icsa_dswp.Outcome.{Outcome, ok, ◌>>=◌, for_each}
use icsa_dswp.Dependence.{DependenceGraph, has_node, has_edge, dependants, get_dependants, IsClosed}
use icsa_dswp.Dependence.Laws.{get_dependants_lem}
use icsa_dswp.GraphUtils.{Enumeration, flag, mark, prepend, post_order_enumerate}
use icsa_dswp.GraphUtils.Lists.{unmarked, unmarked_le, unmarked_lt}
use Runs.{Explored, Explored-nil, Explored-skip, Explored-seq, Explored-visit}

module _ (g : DependenceGraph) (closed : IsClosed g) where
  abbrev work : Enumeration → ℕ
  work e = unmarked (flag e) (PtrMap.keys g.nodes)

  -- The run ends without an exception and has explored the roots.
  abbrev pub Explores : Outcome Enumeration → Enumeration → List Ptr → Type 0
  Explores o e roots =
      (e' : Enumeration) × (new : List Ptr) × (o ≡ ok e') × Explored g e e' roots new

  pub children :
      (body : Ptr → Enumeration → Outcome Enumeration) (bound : ℕ)
      → ((u : Ptr) (e : Enumeration)
          → has_node g u ≡ true
          → work e < bound
          → Explores (body u e) e (u ∷ []))
      → (rs : List Ptr) (e : Enumeration) → ((r : Ptr) → contains rs r ≡ true → has_node g r ≡ true)
      → work e < bound
      → Explores (for_each body rs e) e rs
  unfolding for_each
  children body bound visit [] e nodes h = (e, [], refl, Explored-nil g e)
  children body bound visit (r ∷ rs) e nodes h =
      let (e₁, new₁, ran₁, first) = visit r e (nodes r (ground arith)) h in
      let (e₂, new₂, ran₂, second) =
        children body bound visit rs e₁ (λ q m. nodes q (ground arith))
          (omega (
            arith,
            unmarked_le (flag e) (flag e₁) (PtrMap.keys g.nodes)
                (λ n m. ground (arith, first.flags n)),
          )) in
      (e₂, new₂ ++ new₁, rw ran₁ ran₂, Explored-seq g e e₁ e₂ r rs new₁ new₂ first second)

  -- On a graph with closed edges, from a node, and with more fuel than there are unmarked nodes,
  -- `postOrderEnumerate` returns. It prepends nodes that were unmarked and that the start reaches
  -- through unmarked nodes, each once, and marks exactly these in addition; the start and each
  -- dependant of a new node are marked. Where a new node reaches another one through unmarked
  -- nodes, a node of the component of the first one stands at or before the second.
  pub post_order_enumerate_lem :
      (fuel : ℕ) (u : Ptr) (e : Enumeration)
      → has_node g u ≡ true
      → work e < fuel
      → Explores (post_order_enumerate g fuel u e) e (u ∷ [])
  unfolding post_order_enumerate
  post_order_enumerate_lem zero u e node h = absurd (omega arith)
  post_order_enumerate_lem (suc fuel) u e node h = elim (Bool-cases (flag e u)) [
    | inl seen ↦ (e, [], rw (seen, post_order_enumerate), Explored-skip g e u seen)
    | inr white ↦
        let (e₁, new, ran, deps) =
          children (post_order_enumerate g fuel) fuel (post_order_enumerate_lem fuel)
            (dependants g u) (mark u e) (closed u)
            (omega (
              arith,
              unmarked_lt (flag e) (flag (mark u e)) (PtrMap.keys g.nodes) u marked_more
                  (PtrMap.contains-keys g.nodes u ∙ node) white marked,
            )) in
        (
          prepend u e₁,
          u ∷ new,
          simp (white, get_dependants_lem g u node, ran, post_order_enumerate),
          Explored-visit g e e₁ u new white node deps,
        )
  ]
    where
      marked : flag (mark u e) u ≡ true
      marked = ground (arith, PtrMap.find-assign u true e.visited u)

      marked_more : (n : Ptr) → flag e n ≡ true → flag (mark u e) n ≡ true
      marked_more n m = ground (arith, PtrMap.find-assign u true e.visited n)
