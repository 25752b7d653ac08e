-- ===== src/Cdg/Subtrees.antt =====
-- The post-dominance frontier of a node: the blocks that branch into its tree and are not below it.
use icsa_dswp.Prelude.{
  ◌≡◌, refl, Bool, true, false, not, ◌&&◌, ◌||◌, inl, inr, List, [], ◌∷◌, ◌++◌, arith, ==_iff,
  contains, contains-append, IsUnique, Bool-cases, not_both,
}
use icsa_dswp.Std.{Ptr}
use icsa_dswp.Cdg.{DomTreeNode, DomTreeNodes, dom_node, no_nodes, and_node, PostDominatorTree}
use icsa_dswp.Cdg.Frontier.{
  blocks, blocks_all, frontier, frontier_any, IsUnique-left, IsUnique-right, IsUnique-apart,
}
use icsa_dswp.Cdg.Ancestors.{
  below, below_any, branches, AreHomes, AreHomesAll, AreHomes-head, ats_below, stays_below,
}

module _ (pdt : PostDominatorTree) (tree : List Ptr) (x : Ptr) where
  -- `x` branches to one of the blocks.
  abbrev pub leads : List Ptr → Bool
  leads [] = false
  leads (z ∷ zs) = branches pdt tree x z || leads zs

  leads-append : (xs ys : List Ptr) → leads (xs ++ ys) ≡ (leads xs || leads ys)
  leads-append [] ys = refl
  leads-append (z ∷ xs) ys = ground (arith, leads-append xs ys)

  pub leads_where :
      (zs : List Ptr)
      → leads zs ≡ true
      → (z : Ptr) × (contains zs z ≡ true) × (branches pdt tree x z ≡ true)
  leads_where [] h = absurd (not_both h refl)
  leads_where (z ∷ zs) h = elim (Bool-cases (branches pdt tree x z)) [
    | inl here ↦ (z, ground (arith, ==_iff z z), here)
    | inr there ↦
        let (w, i, b) = leads_where zs (ground (arith, h, there)) in (w, ground (arith, i), b)
  ]

  pub leads_by :
      (zs : List Ptr) (z : Ptr)
      → contains zs z ≡ true
      → branches pdt tree x z ≡ true
      → leads zs ≡ true
  leads_by [] z i b = absurd (not_both i refl)
  leads_by (w ∷ zs) z i b = ground (arith, i, b, ==_iff w z, leads_by zs z)

  -- A block that is strictly below other nodes does not branch here.
  leads_apart :
      (zs : List Ptr) (ts : DomTreeNodes)
      → AreHomesAll pdt tree x ts
      → ((z : Ptr) → contains zs z ≡ true → contains tree z ≡ true)
      → ((z : Ptr) → contains zs z ≡ true → contains (blocks_all ts) z ≡ false)
      → below_any ts x ≡ true
      → leads zs ≡ false
  leads_apart zs ts homes inside apart b = elim (Bool-cases (leads zs)) [
    | inr nowhere ↦ nowhere
    | inl somewhere ↦
        let (z, i, e) = leads_where zs somewhere in
        absurd (not_both (stays_below pdt tree x ts z homes b (inside z i) e) (apart z i))
  ]

  abbrev pub Inside : List Ptr → Type 0
  Inside zs = (z : Ptr) → contains zs z ≡ true → contains tree z ≡ true

  pub Inside-left : (xs ys : List Ptr) → Inside (xs ++ ys) → Inside xs
  Inside-left xs ys h z i = h z (ground (arith, i, contains-append xs ys z))

  pub Inside-right : (xs ys : List Ptr) → Inside (xs ++ ys) → Inside ys
  Inside-right xs ys h z i = h z (ground (arith, i, contains-append xs ys z))

  -- A block that is strictly below another node does not branch here.
  leads_behind :
      (t : DomTreeNode) (ts : DomTreeNodes)
      → AreHomes pdt tree x t
      → IsUnique (blocks t ++ blocks_all ts)
      → Inside (blocks_all ts)
      → contains (below t) x ≡ true
      → leads (blocks_all ts) ≡ false
  leads_behind t ts homes u inside b = elim (Bool-cases (leads (blocks_all ts))) [
    | inr nowhere ↦ nowhere
    | inl somewhere ↦
        let (z, i, e) = leads_where (blocks_all ts) somewhere in
        let home = AreHomes-head pdt tree x t homes in
        absurd (
          not_both i
            (IsUnique-apart (blocks t) (blocks_all ts) z u (home.stays z b (inside z i) e)))
  ]

  mutual
    pub frontier_lem :
        (t : DomTreeNode)
        → AreHomes pdt tree x t
        → IsUnique (blocks t)
        → Inside (blocks t)
        → frontier pdt t x ≡ (leads (blocks t) && not (contains (below t) x))
    frontier_lem (dom_node at block ts) homes u inside = ground (
      arith,
      frontier_any_lem ts homes.1 u.1 (Inside-right (block ∷ []) (blocks_all ts) inside),
      ats_below pdt tree x ts homes.1,
      homes.0.parent,
      u.0,
      ==_iff (pdt.idom x) at,
      ==_iff at (pdt.idom x),
      stays_below pdt tree x ts block homes.1,
      inside block,
      ==_iff block block,
    )

    pub frontier_any_lem :
        (ts : DomTreeNodes)
        → AreHomesAll pdt tree x ts
        → IsUnique (blocks_all ts)
        → Inside (blocks_all ts)
        → frontier_any pdt ts x ≡ (leads (blocks_all ts) && not (below_any ts x))
    frontier_any_lem no_nodes homes u inside = refl
    frontier_any_lem (and_node t ts) homes u inside = ground (
      arith,
      frontier_lem t homes.0 (IsUnique-left (blocks t) (blocks_all ts) u)
          (Inside-left (blocks t) (blocks_all ts) inside),
      frontier_any_lem ts homes.1 (IsUnique-right (blocks t) (blocks_all ts) u)
          (Inside-right (blocks t) (blocks_all ts) inside),
      leads-append (blocks t) (blocks_all ts),
      leads_apart (blocks t) ts homes.1 (Inside-left (blocks t) (blocks_all ts) inside)
          (λ z i. IsUnique-apart (blocks t) (blocks_all ts) z u i),
      leads_behind t ts homes.0 u (Inside-right (blocks t) (blocks_all ts) inside),
    )
