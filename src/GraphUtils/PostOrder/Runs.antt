-- ===== src/GraphUtils/PostOrder/Runs.antt =====
-- What a run of `postOrderEnumerate` from some roots has done, and how runs compose.
use icsa_dswp.Prelude.{
  ◌≡◌, refl, sym, ap, ◌∙◌, subst, Bool, true, false, ◌||◌, inl, inr, List, [], ◌∷◌, ◌++◌, arith,
  ◌==◌, ==_iff, Bool-cases, contains, contains-append, contains-append_cases, not_both, IsUnique,
}
use mathlib.Core.List.{append_assoc}
use icsa_dswp.Std.{Ptr}
use icsa_dswp.Std.PtrMap
use icsa_dswp.Dependence.{DependenceGraph, has_node, has_edge, dependants}
use icsa_dswp.GraphUtils.{Enumeration, flag, mark, prepend}
use icsa_dswp.GraphUtils.Walk.{
  Walk, here, Walk-end, Walk-start, Walk-cons, Walk-mono, Walk-stays, Walk-avoids, Walk-through,
}
use icsa_dswp.GraphUtils.Lists.{
  Before, Before-append_left, Before-append_right, Before-append, IsUnique-append,
}

module _ (g : DependenceGraph) where
  -- A node of the list whose component reaches `y` stands at or before `y`: some `z` that `x`
  -- reaches and that reaches `x`.
  abbrev pub Preceded : (Ptr → Bool) → List Ptr → Ptr → Ptr → Type 0
  Preceded blocked l x y = (z : Ptr) × Before l z y × Walk g blocked x z × Walk g blocked z x

  -- The list is sorted by components, as far as free walks tell.
  abbrev pub IsSorted : (Ptr → Bool) → List Ptr → Type 0
  IsSorted blocked l =
      (x y : Ptr)
      → contains l x ≡ true
      → contains l y ≡ true
      → Walk g blocked x y
      → Preceded blocked l x y

  -- `e'` is `e` with `new` prepended: the nodes reached from the roots over unvisited ones.
  pub record Explored (e e' : Enumeration) (roots new : List Ptr) : Type 0 where
    pub result : e'.result ≡ new ++ e.result
    pub flags : (n : Ptr) → flag e' n ≡ (flag e n || contains new n)
    pub fresh : (n : Ptr) → contains new n ≡ true → flag e n ≡ false
    pub unique : IsUnique new
    pub inside : (n : Ptr) → contains new n ≡ true → has_node g n ≡ true
    pub closed : (n m : Ptr) → contains new n ≡ true → has_edge g n m ≡ true → flag e' m ≡ true
    pub visited : (r : Ptr) → contains roots r ≡ true → flag e' r ≡ true
    pub source :
        (n : Ptr)
        → contains new n ≡ true
        → (r : Ptr) × (contains roots r ≡ true) × Walk g (flag e) r n
    pub sorted : IsSorted (flag e) new

  pub Explored-nil : (e : Enumeration) → Explored e e [] []
  Explored-nil e = record {
    result = refl;
    flags = λ n. ground arith;
    fresh = λ n h. cc;
    unique = tt;
    inside = λ n h. cc;
    closed = λ n m h. cc;
    visited = λ r h. cc;
    source = λ n h. absurd (not_both h refl);
    sorted = λ x y h. absurd (not_both h refl);
  }

  pub Explored-skip : (e : Enumeration) (u : Ptr) → flag e u ≡ true → Explored e e (u ∷ []) []
  Explored-skip e u seen = record {
    result = refl;
    flags = λ n. ground arith;
    fresh = λ n h. cc;
    unique = tt;
    inside = λ n h. cc;
    closed = λ n m h. cc;
    visited = λ r h. ground (arith, ==_iff u r, seen);
    source = λ n h. absurd (not_both h refl);
    sorted = λ x y h. absurd (not_both h refl);
  }

  module _ (e e₁ e₂ : Enumeration) (r : Ptr) (rs new₁ new₂ : List Ptr)
      (first : Explored e e₁ (r ∷ []) new₁) (second : Explored e₁ e₂ rs new₂) where
    fresh₂ : (n : Ptr) → contains new₂ n ≡ true → flag e n ≡ false
    fresh₂ n h = ground (arith, second.fresh n h, first.flags n)

    apart : (n : Ptr) → contains new₂ n ≡ true → contains new₁ n ≡ false
    apart n h = ground (arith, second.fresh n h, first.flags n)

    stays :
        (n m : Ptr)
        → contains new₁ n ≡ true
        → has_edge g n m ≡ true
        → flag e m ≡ false
        → contains new₁ m ≡ true
    stays n m h edge free = ground (arith, first.closed n m h edge, first.flags m)

    earlier : (n : Ptr) → flag e₁ n ≡ false → flag e n ≡ false
    earlier n h = ground (arith, first.flags n)

    later : (n : Ptr) → flag e n ≡ false → contains new₁ n ≡ false → flag e₁ n ≡ false
    later n h k = ground (arith, first.flags n)

    IsSorted-both : IsSorted (flag e) (new₂ ++ new₁)
    IsSorted-both x y hx hy w = elim (contains-append_cases new₂ new₁ x hx) [
      | inr x₁ ↦
          let y₁ = Walk-stays new₁ stays x₁ w in
          let (z, before, there, back) = first.sorted x y x₁ y₁ w in
          (z, Before-append_right new₂ new₁ z y before, there, back)
      | inl x₂ ↦ elim (contains-append_cases new₂ new₁ y hy) [
        | inr y₁ ↦ (x, Before-append new₂ new₁ x y x₂ y₁, here (Walk-start w), here (Walk-start w))
        | inl y₂ ↦
            let w₁ = Walk-avoids new₁ (flag e₁) stays later (apart y y₂) w in
            let (z, before, there, back) = second.sorted x y x₂ y₂ w₁ in
            (
              z,
              Before-append_left new₂ new₁ z y before,
              Walk-mono (flag e) earlier there,
              Walk-mono (flag e) earlier back,
            )
      ]
    ]

    pub Explored-seq : Explored e e₂ (r ∷ rs) (new₂ ++ new₁)
    Explored-seq = record {
      result =
          second.result ∙ ap (λ l. new₂ ++ l) first.result ∙ sym (append_assoc new₂ new₁ e.result);
      flags = λ n. ground (arith, second.flags n, first.flags n, contains-append new₂ new₁ n);
      fresh = λ n h. ground (arith, contains-append new₂ new₁ n, fresh₂ n, first.fresh n);
      unique = IsUnique-append new₂ new₁ second.unique first.unique apart;
      inside = λ n h. ground (arith, contains-append new₂ new₁ n, first.inside n, second.inside n);
      closed = λ n m h edge.
          ground (
            arith,
            contains-append new₂ new₁ n,
            first.closed n m,
            second.closed n m,
            second.flags m,
          );
      visited = λ q h. ground (arith, first.visited q, second.visited q, second.flags q);
      source = λ n h. elim (contains-append_cases new₂ new₁ n h) [
        | inl n₂ ↦
            let (q, from, w) = second.source n n₂ in (q, ground arith, Walk-mono (flag e) earlier w)
        | inr n₁ ↦ let (q, from, w) = first.source n n₁ in (q, ground arith, w)
      ];
      sorted = IsSorted-both;
    }

  -- The visit of an unvisited node `u`: mark it, explore what depends on it, prepend it.
  module _ (e e₁ : Enumeration) (u : Ptr) (new : List Ptr) (white : flag e u ≡ false)
      (node : has_node g u ≡ true) (deps : Explored (mark u e) e₁ (dependants g u) new) where
    pub flag-mark : (n : Ptr) → flag (mark u e) n ≡ (u == n || flag e n)
    flag-mark n = ground (arith, PtrMap.find-assign u true e.visited n)

    white_new : (n : Ptr) → contains new n ≡ true → (u == n ≡ false) × (flag e n ≡ false)
    white_new n h = ground (arith, deps.fresh n h, flag-mark n)

    unmark : (n : Ptr) → flag (mark u e) n ≡ false → flag e n ≡ false
    unmark n h = ground (arith, flag-mark n)

    around : (n : Ptr) → flag e n ≡ false → (n == u) ≡ false → flag (mark u e) n ≡ false
    around n h k = ground (arith, flag-mark n)

    from_u : (n : Ptr) → contains new n ≡ true → Walk g (flag e) u n
    from_u n h =
        let (r, edge, w) = deps.source n h in Walk-cons edge white (Walk-mono (flag e) unmark w)

    IsSorted-cons : IsSorted (flag e) (u ∷ new)
    IsSorted-cons x y hx hy w = elim (Bool-cases (u == x)) [
      | inl same ↦
          (x, inl (sym ((==_iff u x).0 same), hy), here (Walk-start w), here (Walk-start w))
      | inr other ↦ elim (Walk-through u (flag (mark u e)) around w) [
        | inr (to_u, on) ↦ (u, inl (refl, hy), to_u, from_u x (ground arith))
        | inl clear ↦
            let (z, before, there, back) =
              deps.sorted x y (ground arith) (ground (arith, flag-mark y, Walk-end clear)) clear in
            (z, inr before, Walk-mono (flag e) unmark there, Walk-mono (flag e) unmark back)
      ]
    ]

    pub Explored-visit : Explored e (prepend u e₁) (u ∷ []) (u ∷ new)
    Explored-visit = record {
      result = ap (λ l. u ∷ l) deps.result;
      flags = λ n. ground (arith, deps.flags n, flag-mark n);
      fresh = λ n h. ground (arith, white_new n, ==_iff u n, white);
      unique = (ground (arith, white_new u), deps.unique);
      inside = λ n h. ground (arith, deps.inside n, ==_iff u n, node);
      closed = λ n m h edge. ground (arith, deps.closed n m, deps.visited m, ==_iff u n);
      visited = λ r h. ground (arith, deps.flags r, flag-mark r);
      source = λ n h. (
        u,
        ground arith,
        elim (Bool-cases (u == n)) [
          | inl same ↦ subst (λ m. Walk g (flag e) u m) ((==_iff u n).0 same) (here white)
          | inr other ↦ from_u n (ground arith)
        ],
      );
      sorted = IsSorted-cons;
    }
