-- ===== src/GraphUtils/Component/Runs.antt =====
-- What a run of `assignComponent` from some start nodes has done, and how runs compose.
use icsa_dswp.Prelude.{
  ◌≡◌, refl, subst, true, false, ◌||◌, ◌≢◌, inl, inr, List, [], ◌∷◌, arith, ◌==◌, ==_iff,
  Bool-cases, contains, not_both,
}
use icsa_dswp.Std.{Ptr, nullptr}
use icsa_dswp.Std.PtrMap
use icsa_dswp.Std.PtrMap.{PtrMap}
use icsa_dswp.Dependence.{DependenceGraph, has_node, has_edge, dependants}
use icsa_dswp.GraphUtils.{root_of, taken}
use icsa_dswp.GraphUtils.Walk.{Walk, here, Walk-cons, Walk-mono}

module _ (g : DependenceGraph) (root : Ptr) where
  -- `d` is `c` where the nodes reached from the starts over nodes without a component got `root`.
  pub record Assigned (c d : PtrMap Ptr) (starts : List Ptr) : Type 0 where
    pub kept : (n : Ptr) → taken c n ≡ true → root_of d n ≡ root_of c n
    pub rooted : (n : Ptr) → taken c n ≡ false → taken d n ≡ true → root_of d n ≡ root
    pub inside : (n : Ptr) → taken c n ≡ false → taken d n ≡ true → has_node g n ≡ true
    pub source :
        (n : Ptr)
        → taken c n ≡ false
        → taken d n ≡ true
        → (r : Ptr) × (contains starts r ≡ true) × Walk g (taken c) r n
    pub closed :
        (n m : Ptr)
        → taken c n ≡ false
        → taken d n ≡ true
        → has_edge g n m ≡ true
        → taken d m ≡ true
    pub reached : (r : Ptr) → contains starts r ≡ true → taken d r ≡ true
    pub keyed : (n : Ptr) → PtrMap.has_key d n ≡ (PtrMap.has_key c n || taken d n)
    pub ascending : PtrMap.IsAscending c → PtrMap.IsAscending d

  keyed_self : (c : PtrMap Ptr) (n : Ptr) → PtrMap.has_key c n ≡ (PtrMap.has_key c n || taken c n)
  keyed_self c n = ground arith

  pub Assigned-nil : (c : PtrMap Ptr) → Assigned c c []
  Assigned-nil c = record {
    kept = λ n h. refl;
    rooted = λ n h k. ground arith;
    inside = λ n h k. ground arith;
    source = λ n h k. absurd (not_both k h);
    closed = λ n m h k e. ground arith;
    reached = λ r h. ground arith;
    keyed = keyed_self c;
    ascending = λ a. a;
  }

  pub Assigned-skip : (c : PtrMap Ptr) (u : Ptr) → taken c u ≡ true → Assigned c c (u ∷ [])
  Assigned-skip c u t = record {
    kept = λ n h. refl;
    rooted = λ n h k. ground arith;
    inside = λ n h k. ground arith;
    source = λ n h k. absurd (not_both k h);
    closed = λ n m h k e. ground arith;
    reached = λ r h. subst (λ x. taken c x ≡ true) ((==_iff u r).0 (ground arith)) t;
    keyed = keyed_self c;
    ascending = λ a. a;
  }

  module _ (c c₁ c₂ : PtrMap Ptr) (r : Ptr) (rs : List Ptr) (first : Assigned c c₁ (r ∷ []))
      (second : Assigned c₁ c₂ rs) where
    earlier : (n : Ptr) → taken c₁ n ≡ false → taken c n ≡ false
    earlier n h = ground (arith, first.kept n)

    kept_taken : (n : Ptr) → taken c₁ n ≡ true → taken c₂ n ≡ true
    kept_taken n h = ground (arith, second.kept n)

    pub Assigned-seq : Assigned c c₂ (r ∷ rs)
    Assigned-seq = record {
      kept = λ n h. ground (arith, first.kept n, second.kept n);
      rooted = λ n h k. ground (arith, first.rooted n, second.rooted n, second.kept n);
      inside = λ n h k. ground (arith, first.inside n, second.inside n);
      source = λ n h k. elim (Bool-cases (taken c₁ n)) [
        | inl t ↦ let (q, from, w) = first.source n h t in (q, ground arith, w)
        | inr f ↦
            let (q, from, w) = second.source n f k in
            (q, ground arith, Walk-mono (taken c) earlier w)
      ];
      closed = λ n m h k e. ground (arith, first.closed n m, second.closed n m, kept_taken m);
      reached = λ q h. ground (arith, first.reached q, second.reached q, kept_taken q);
      keyed = λ n. ground (arith, first.keyed n, second.keyed n, second.kept n, kept_taken n);
      ascending = λ a. second.ascending (first.ascending a);
    }

  -- The visit of a node without a component: give it the root, go on to what depends on it.
  module _ (c d : PtrMap Ptr) (u : Ptr) (proper : root ≢ nullptr) (free : taken c u ≡ false)
      (node : has_node g u ≡ true)
      (deps : Assigned (PtrMap.assign u root c) d (dependants g u)) where
    abbrev given : PtrMap Ptr
    given = PtrMap.assign u root c

    taken-given : (n : Ptr) → taken given n ≡ (u == n || taken c n)
    taken-given n = ground (arith, PtrMap.find-assign u root c n)

    taken_u : taken d u ≡ true
    taken_u = ground (arith, PtrMap.find-assign u root c u, deps.kept u)

    ungiven : (n : Ptr) → taken given n ≡ false → taken c n ≡ false
    ungiven n h = ground (arith, taken-given n)

    pub Assigned-visit : Assigned c d (u ∷ [])
    Assigned-visit = record {
      kept = λ n h. ground (arith, PtrMap.find-assign u root c n, deps.kept n);
      rooted = λ n h k. ground (arith, PtrMap.find-assign u root c n, deps.kept n, deps.rooted n);
      inside = λ n h k. ground (arith, taken-given n, deps.inside n, ==_iff u n, node);
      source = λ n h k. (
        u,
        ground arith,
        elim (Bool-cases (u == n)) [
          | inl same ↦ subst (λ m. Walk g (taken c) u m) ((==_iff u n).0 same) (here free)
          | inr other ↦
              let (q, edge, w) = deps.source n (ground (arith, taken-given n)) k in
              Walk-cons edge free (Walk-mono (taken c) ungiven w)
        ],
      );
      closed =
          λ n m h k e. ground (arith, taken-given n, deps.closed n m, deps.reached m, ==_iff u n);
      reached = λ r h. ground (arith, taken_u, ==_iff u r);
      keyed = λ n. ground (arith, PtrMap.find-assign u root c n, deps.keyed n, taken_u);
      ascending = λ a. deps.ascending (PtrMap.assign-IsAscending u root c a);
    }
