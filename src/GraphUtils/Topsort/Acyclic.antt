-- ===== src/GraphUtils/Topsort/Acyclic.antt =====
-- `topsort` on a graph without cycles, where having none is said by reachability.
use icsa_dswp.Prelude.{
  ℕ, zero, suc, ◌<◌, ◌≡◌, ◌≢◌, refl, sym, ◌∙◌, subst, true, false, inl, inr, List, [], ◌∷◌, arith,
  ◌==◌, ==_iff, Bool-cases, Bool-ext, contains, IsUnique, not_both,
}
use icsa_dswp.Std.{Ptr}
use icsa_dswp.Std.PtrMap
use icsa_dswp.Outcome.{ok}
use icsa_dswp.Dependence.{DependenceGraph, has_node, has_edge, IsClosed}
use icsa_dswp.Dependence.Laws.{edge_source}
use icsa_dswp.Dependence.Order.{IsOrdered}
use icsa_dswp.GraphUtils.{topsort}
use icsa_dswp.GraphUtils.Lists.{unmarked, unmarked_lt}
use icsa_dswp.GraphUtils.Walk.{Reach, here, Walk-cons}
use icsa_dswp.GraphUtils.Topsort.{IsTopologicalOrder, topsort_lem}
use icsa_dswp.GraphUtils.Topsort.Rounds.{IsTopsorted}

-- No node reaches itself through another one, and none depends on itself.
pub record IsAcyclic (g : DependenceGraph) : Type 0 where
  pub no_cycle : (s t : Ptr) → has_node g s ≡ true → Reach g s t → s ≢ t → ¬ Reach g t s
  pub no_loop : (s : Ptr) → has_edge g s s ≡ false

module _ (g : DependenceGraph) (ordered : IsOrdered g) (closed : IsClosed g)
    (acyclic : IsAcyclic g) where
  module _ (l : List Ptr) (order : IsTopologicalOrder g l) where
    -- Backwards from a node that is left out: the nodes passed are all new, so they run out.
    chase :
        (fuel : ℕ) (path : List Ptr) (x : Ptr)
        → unmarked (contains path) (PtrMap.keys g.nodes) < fuel
        → has_node g x ≡ true
        → contains l x ≡ false
        → contains path x ≡ true
        → ((y : Ptr) → contains path y ≡ true → Reach g x y)
        → ⊥
    chase zero path x h node out head reach = omega arith
    chase (suc fuel) path x h node out head reach =
        let (x', e, out') = order.left_out x node out in
        let node' = edge_source g x' x e in
        elim (Bool-cases (contains path x')) [
          | inl seen ↦
              acyclic.no_cycle x x' node (reach x' seen)
                (λ same.
                  not_both (subst (λ y. has_edge g y x ≡ true) (sym same) e) (acyclic.no_loop x))
                (Walk-cons e refl (here refl))
          | inr new ↦
              let less =
                unmarked_lt (contains path) (contains (x' ∷ path)) (PtrMap.keys g.nodes) x'
                  (λ k m. ground arith) (PtrMap.contains-keys g.nodes x' ∙ node') new
                  (ground (arith, ==_iff x' x')) in
              chase fuel (x' ∷ path) x' (omega (arith, less)) node' out'
                (ground (arith, ==_iff x' x')) (widen x' e)
        ]
      where
        widen :
            (x' : Ptr)
            → has_edge g x' x ≡ true
            → (y : Ptr) → contains (x' ∷ path) y ≡ true
            → Reach g x' y
        widen x' e y h = elim (Bool-cases (x' == y)) [
          | inl same ↦ subst (Reach g x') ((==_iff x' y).0 same) (here refl)
          | inr other ↦ Walk-cons e refl (reach y (ground arith))
        ]

    listed : (m : Ptr) → has_node g m ≡ true → contains l m ≡ true
    listed m node = elim (Bool-cases (contains l m)) [
      | inl there ↦ there
      | inr out ↦ absurd (
          chase (suc (unmarked (contains (m ∷ [])) (PtrMap.keys g.nodes))) (m ∷ []) m (omega arith)
            node out (ground (arith, ==_iff m m))
            (λ y h. subst (Reach g m) ((==_iff m y).0 (ground arith)) (here refl)))
    ]

  -- On a well-formed graph with closed edges and without cycles, `topsort` returns a list of
  -- exactly its nodes, each once and each after all nodes that it depends on.
  pub topsort_no_cycle :
      (l : List Ptr) × (topsort g ≡ ok l)
      × ((m : Ptr) → contains l m ≡ has_node g m)
      × IsUnique l
      × IsTopsorted g [] l
  topsort_no_cycle =
      let (l, ran, order) = topsort_lem g ordered closed in
      (
        l,
        ran,
        λ m. Bool-ext (contains l m) (has_node g m) (order.inside m, listed l order m),
        order.unique,
        order.sorted,
      )
