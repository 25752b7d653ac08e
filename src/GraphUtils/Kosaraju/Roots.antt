-- ===== src/GraphUtils/Kosaraju/Roots.antt =====
-- The second pass of `findSCC`: what is given a root is a union of whole components.
use icsa_dswp.Prelude.{
  ◌≡◌, refl, sym, ◌∙◌, Bool, true, false, inl, inr, List, [], ◌∷◌, ◌++◌, arith, Bool-cases,
  contains, contains-append, contains-append_cases, not_both, subst,
}
use icsa_dswp.Std.{Ptr}
use icsa_dswp.Std.PtrMap
use icsa_dswp.Std.PtrMap.{PtrMap}
use icsa_dswp.Dependence.{DependenceGraph, has_node, IsClosed}
use icsa_dswp.Dependence.Order.{IsOrdered}
use icsa_dswp.GraphUtils.{root_of, taken, transpose}
use icsa_dswp.GraphUtils.Walk.{
  Walk, here, step, free, Reach, Strong, Walk-start, Walk-end, Walk-trans, Walk-mono,
}
use icsa_dswp.GraphUtils.Lists.{Before-split}
use icsa_dswp.GraphUtils.Transpose.{Walk-transpose, Walk-of_transpose, has_node-transpose}
use icsa_dswp.GraphUtils.Component.Runs.{Assigned}
use icsa_dswp.GraphUtils.Kosaraju.Order.{IsPostOrder}

-- A walk keeps clear of what no node between its ends is.
Walk-clear :
    {g : DependenceGraph} {a b : Ptr} (blocked : Ptr → Bool)
    → ((k : Ptr) → Reach g a k → Reach g k b → blocked k ≡ false)
    → Reach g a b
    → Walk g blocked a b
Walk-clear {a} blocked clear (here h) = here (clear a (here refl) (here refl))
Walk-clear blocked clear (step {b} {c} w e h) =
    step (Walk-clear blocked (λ k p q. clear k p (step q e h)) w) e
      (clear c (step w e h) (here refl))

-- The roots given so far, with the nodes of `pre` done.
pub record IsPartial (g : DependenceGraph) (pre : List Ptr) (c : PtrMap Ptr) : Type 0 where
  pub strong : (n : Ptr) → taken c n ≡ true → Strong g n (root_of c n)
  pub whole : (n m : Ptr) → taken c n ≡ true → Strong g n m → root_of c m ≡ root_of c n
  pub done : (z : Ptr) → contains pre z ≡ true → taken c z ≡ true
  pub keyed : (n : Ptr) → PtrMap.has_key c n ≡ has_node g n
  pub ascending : PtrMap.IsAscending c

module _ (g : DependenceGraph) (ordered : IsOrdered g) (closed : IsClosed g) (pre : List Ptr)
    (r : Ptr) (rest : List Ptr) (order : IsPostOrder g (pre ++ r ∷ rest)) (c d : PtrMap Ptr)
    (before : IsPartial g pre c) (run : Assigned (transpose g) r c d (r ∷ [])) where
  -- The walk in the transposed graph that led to a new node starts at the root.
  from_root : (n : Ptr) → taken c n ≡ false → taken d n ≡ true → Walk (transpose g) (taken c) r n
  from_root n old new =
      let (q, is_r, w) = run.source n old new in
      subst (λ x. Walk (transpose g) (taken c) x n) (ground arith) w

  listed : (n : Ptr) → taken c n ≡ false → taken d n ≡ true → contains (pre ++ r ∷ rest) n ≡ true
  listed n old new =
      order.nodes n ∙ sym (has_node-transpose g ordered closed n) ∙ run.inside n old new

  root_listed : contains (pre ++ r ∷ rest) r ≡ true
  root_listed = ground (arith, contains-append pre (r ∷ rest) r)

  taken_by : (z n : Ptr) → taken c z ≡ true → Strong g z n → taken c n ≡ true
  taken_by z n t s = ground (arith, before.whole z n t s)

  new-Strong : (n : Ptr) → taken c n ≡ false → taken d n ≡ true → Strong g n r
  new-Strong n old new =
      let to_r =
        Walk-mono free (λ k h. refl)
          (Walk-of_transpose g ordered (taken c) (from_root n old new)) in
      let (z, first, there, back) = order.sorted n r (listed n old new) root_listed to_r in
      elim (Before-split pre r rest z order.unique first) [
        | inr same ↦ (to_r, subst (λ x. Reach g x n) same back)
        | inl past ↦ absurd (not_both (taken_by z n (before.done z past) (back, there)) old)
      ]

  reached : {n : Ptr} → Walk (transpose g) (taken c) r n → taken d n ≡ true
  reached (here h) = run.reached r (ground arith)
  reached (step {b} {c = m} w e h) = run.closed b m (Walk-end w) (reached w) e

  -- The whole component of the root is reached.
  whole_new :
      (n m : Ptr) → taken c n ≡ false → taken d n ≡ true → Strong g n m → root_of d m ≡ root_of d n
  whole_new n m old new (n_m, m_n) =
      let (n_r, r_n) = new-Strong n old new in
      let r_old = Walk-start (from_root n old new) in
      let m_r = Walk-trans m_n n_r in
      let clear = λ (k : Ptr) (p : Reach g m k) (q : Reach g k r).
        not_taken k r (q, Walk-trans (Walk-trans r_n n_m) p) r_old in
      let back = Walk-transpose g ordered (taken c) (Walk-clear (taken c) clear m_r) in
      run.rooted m (Walk-end back) (reached back) ∙ sym (run.rooted n old new)
    where
      not_taken : (k r : Ptr) → Strong g k r → taken c r ≡ false → taken c k ≡ false
      not_taken k r s h = elim (Bool-cases (taken c k)) [
        | inl t ↦ absurd (not_both (taken_by k r t s) h)
        | inr f ↦ f
      ]

  whole_old : (n m : Ptr) → taken c n ≡ true → Strong g n m → root_of d m ≡ root_of d n
  whole_old n m t s = run.kept m (taken_by n m t s) ∙ before.whole n m t s ∙ sym (run.kept n t)

  Strong-next : (n : Ptr) → taken d n ≡ true → Strong g n (root_of d n)
  Strong-next n t = elim (Bool-cases (taken c n)) [
    | inl old ↦ subst (λ x. Strong g n x) (sym (run.kept n old)) (before.strong n old)
    | inr new ↦ subst (λ x. Strong g n x) (sym (run.rooted n new t)) (new-Strong n new t)
  ]

  keyed_next : (n : Ptr) → PtrMap.has_key d n ≡ has_node g n
  keyed_next n = ground (
    arith,
    run.keyed n,
    before.keyed n,
    run.kept n,
    run.inside n,
    has_node-transpose g ordered closed n,
  )

  pub IsPartial-next : IsPartial g (pre ++ r ∷ []) d
  IsPartial-next = record {
    strong = Strong-next;
    whole = λ n m t s. elim (Bool-cases (taken c n)) [
      | inl old ↦ whole_old n m old s
      | inr new ↦ whole_new n m new t s
    ];
    done = λ z h. elim (contains-append_cases pre (r ∷ []) z h) [
      | inl past ↦ ground (arith, run.kept z, before.done z past)
      | inr now ↦ run.reached z now
    ];
    keyed = keyed_next;
    ascending = run.ascending before.ascending;
  }
