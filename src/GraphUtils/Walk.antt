-- ===== src/GraphUtils/Walk.antt =====
-- Walks along the edges of a dependence graph that keep clear of blocked nodes.
use icsa_dswp.Prelude.{
  ◌≡◌, sym, subst, Bool, true, false, ◌⊎◌, inl, inr, List, ◌==◌, ==_iff, Bool-cases, contains,
  not_both,
}
use icsa_dswp.Std.{Ptr}
use icsa_dswp.Dependence.{DependenceGraph, has_edge}

pub data Walk (g : DependenceGraph) (blocked : Ptr → Bool) (a : Ptr) : Ptr → Type 0 where
  here : blocked a ≡ false → Walk g blocked a a
  step :
      {b c : Ptr}
      → Walk g blocked a b
      → has_edge g b c ≡ true
      → blocked c ≡ false
      → Walk g blocked a c

abbrev pub free : Ptr → Bool
free n = false

-- `b` depends on `a`, directly or through other nodes, or is `a` itself.
abbrev pub Reach : DependenceGraph → Ptr → Ptr → Type 0
Reach g a b = Walk g free a b

-- Each of the two reaches the other.
abbrev pub Strong : DependenceGraph → Ptr → Ptr → Type 0
Strong g a b = Reach g a b × Reach g b a

module _ {g : DependenceGraph} {blocked : Ptr → Bool} where
  pub Walk-end : {a b : Ptr} → Walk g blocked a b → blocked b ≡ false
  Walk-end (here h) = h
  Walk-end (step w e h) = h

  pub Walk-start : {a b : Ptr} → Walk g blocked a b → blocked a ≡ false
  Walk-start (here h) = h
  Walk-start (step w e h) = Walk-start w

  pub Walk-trans : {a b c : Ptr} → Walk g blocked a b → Walk g blocked b c → Walk g blocked a c
  Walk-trans v (here h) = v
  Walk-trans v (step w e h) = step (Walk-trans v w) e h

  pub Walk-cons :
      {a b c : Ptr}
      → has_edge g a b ≡ true
      → blocked a ≡ false
      → Walk g blocked b c
      → Walk g blocked a c
  Walk-cons e h w = Walk-trans (step (here h) e (Walk-start w)) w

  -- Fewer blocked nodes leave every walk.
  pub Walk-mono :
      {a b : Ptr} (blocked' : Ptr → Bool)
      → ((n : Ptr) → blocked n ≡ false → blocked' n ≡ false)
      → Walk g blocked a b
      → Walk g blocked' a b
  Walk-mono blocked' f (here h) = here (f _ h)
  Walk-mono blocked' f (step w e h) = step (Walk-mono blocked' f w) e (f _ h)

  -- A walk that starts in a set which no free edge leaves ends in it.
  pub Walk-stays :
      {a b : Ptr} (set : List Ptr)
      → ((n m : Ptr)
          → contains set n ≡ true
          → has_edge g n m ≡ true
          → blocked m ≡ false
          → contains set m ≡ true)
      → contains set a ≡ true
      → Walk g blocked a b
      → contains set b ≡ true
  Walk-stays set closed m (here h) = m
  Walk-stays set closed m (step w e h) = closed _ _ (Walk-stays set closed m w) e h

  -- A walk that ends outside such a set never met it.
  pub Walk-avoids :
      {a b : Ptr} (set : List Ptr) (blocked' : Ptr → Bool)
      → ((n m : Ptr)
          → contains set n ≡ true
          → has_edge g n m ≡ true
          → blocked m ≡ false
          → contains set m ≡ true)
      → ((n : Ptr) → blocked n ≡ false → contains set n ≡ false → blocked' n ≡ false)
      → contains set b ≡ false
      → Walk g blocked a b
      → Walk g blocked' a b
  Walk-avoids set blocked' closed outside m (here h) = here (outside _ h m)
  Walk-avoids set blocked' closed outside m (step {b} {c} w e h) =
      elim (Bool-cases (contains set b)) [
        | inl inside ↦ absurd (not_both (closed b c inside e h) m)
        | inr out ↦ step (Walk-avoids set blocked' closed outside out w) e (outside _ h m)
      ]

  -- A walk avoids a node or passes through it.
  pub Walk-through :
      {a b : Ptr} (u : Ptr) (blocked' : Ptr → Bool)
      → ((n : Ptr) → blocked n ≡ false → (n == u) ≡ false → blocked' n ≡ false)
      → Walk g blocked a b
      → Walk g blocked' a b ⊎ Walk g blocked a u × Walk g blocked u b
  Walk-through {a} u blocked' outside (here h) = elim (Bool-cases (a == u)) [
    | inl same ↦
        let at_u : Walk g blocked a u =
          subst (λ n. Walk g blocked a n) ((==_iff a u).0 same) (here h) in
        inr
          (at_u, subst (λ n. Walk g blocked u n) (sym ((==_iff a u).0 same)) (here (Walk-end at_u)))
    | inr other ↦ inl (here (outside a h other))
  ]
  Walk-through {a} u blocked' outside (step {b} {c} w e h) =
      elim (Walk-through u blocked' outside w) [
        | inr (p, q) ↦ inr (p, step q e h)
        | inl clear ↦ elim (Bool-cases (c == u)) [
          | inl same ↦ inr (
            subst (λ n. Walk g blocked a n) ((==_iff c u).0 same) (step w e h),
            at_end c h ((==_iff c u).0 same),
          )
          | inr other ↦ inl (step clear e (outside c h other))
        ]
      ]
    where
      at_end : (c : Ptr) → blocked c ≡ false → c ≡ u → Walk g blocked u c
      at_end c h same = subst (λ n. Walk g blocked n c) same (here h)
