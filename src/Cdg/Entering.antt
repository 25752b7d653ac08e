-- ===== src/Cdg/Entering.antt =====
-- The blocks that branch into the tree of a node, and those that are located there.
use icsa_dswp.Prelude.{
  ◌≡◌, refl, Bool, true, false, not, ◌&&◌, ◌||◌, inl, inr, List, [], ◌∷◌, arith, ◌==◌, ==_iff,
  contains, contains-append, IsUnique, Bool-cases, not_both,
}
use icsa_dswp.Std.{Ptr}
use icsa_dswp.Cdg.{DomTreeNode, DomTreeNodes, dom_node, no_nodes, and_node, PostDominatorTree}
use icsa_dswp.Cdg.Frontier.{
  blocks, blocks_all, located, located_any, located_any-outside, IsUnique-left, IsUnique-right,
  IsUnique-apart,
}
use icsa_dswp.Cdg.Ancestors.{
  above, above_any, strictly_above, strictly_above_any, strictly_above-outside,
  strictly_above_any-outside, branches, AreHomes, AreHomesAll,
}
use icsa_dswp.Cdg.Subtrees.{
  leads, leads_where, leads_by, Inside, Inside-left, Inside-right, frontier_lem,
}

module _ (pdt : PostDominatorTree) (tree : List Ptr) (x : Ptr) where
  -- `x` branches into the tree of the node with the block `y`.
  abbrev mutual
    pub enters : DomTreeNode → Ptr → Bool
    enters (dom_node at block ts) y =
        block == y && leads pdt tree x (block ∷ blocks_all ts) || enters_any ts y

    pub enters_any : DomTreeNodes → Ptr → Bool
    enters_any no_nodes y = false
    enters_any (and_node t ts) y = enters t y || enters_any ts y

  mutual
    enters-outside :
        (t : DomTreeNode) (y : Ptr) → contains (blocks t) y ≡ false → enters t y ≡ false
    enters-outside (dom_node at block ts) y h = ground (arith, enters_any-outside ts y)

    enters_any-outside :
        (ts : DomTreeNodes) (y : Ptr) → contains (blocks_all ts) y ≡ false → enters_any ts y ≡ false
    enters_any-outside no_nodes y h = refl
    enters_any-outside (and_node t ts) y h = ground (
      arith,
      enters-outside t y,
      enters_any-outside ts y,
      contains-append (blocks t) (blocks_all ts) y,
    )

  mutual
    -- The node has `z` in its tree where it has `x` branch to.
    pub enters_where :
        (t : DomTreeNode) (y : Ptr)
        → enters t y ≡ true
        → (z : Ptr) × (above t y z ≡ true) × (branches pdt tree x z ≡ true)
    enters_where (dom_node at block ts) y h = elim (Bool-cases (enters_any ts y)) [
      | inl deeper ↦ let (z, a, b) = enters_any_where ts y deeper in (z, ground (arith, a), b)
      | inr here ↦
          let (z, a, b) =
            leads_where pdt tree x (block ∷ blocks_all ts) (ground (arith, h, here)) in
          (z, ground (arith, a, h, here), b)
    ]

    pub enters_any_where :
        (ts : DomTreeNodes) (y : Ptr)
        → enters_any ts y ≡ true
        → (z : Ptr) × (above_any ts y z ≡ true) × (branches pdt tree x z ≡ true)
    enters_any_where no_nodes y h = absurd (not_both h refl)
    enters_any_where (and_node t ts) y h = elim (Bool-cases (enters t y)) [
      | inl first ↦ let (z, a, b) = enters_where t y first in (z, ground (arith, a), b)
      | inr other ↦
          let (z, a, b) = enters_any_where ts y (ground (arith, h, other)) in
          (z, ground (arith, a), b)
    ]

  mutual
    pub enters_by :
        (t : DomTreeNode) (y z : Ptr)
        → above t y z ≡ true
        → branches pdt tree x z ≡ true
        → enters t y ≡ true
    enters_by (dom_node at block ts) y z a b =
        ground (arith, a, b, leads_by pdt tree x (block ∷ blocks_all ts) z, enters_any_by ts y z)

    pub enters_any_by :
        (ts : DomTreeNodes) (y z : Ptr)
        → above_any ts y z ≡ true
        → branches pdt tree x z ≡ true
        → enters_any ts y ≡ true
    enters_any_by no_nodes y z a b = absurd (not_both a refl)
    enters_any_by (and_node t ts) y z a b =
        ground (arith, a, b, enters_by t y z, enters_any_by ts y z)

  mutual
    pub located_lem :
        (t : DomTreeNode) (y : Ptr)
        → AreHomes pdt tree x t
        → IsUnique (blocks t)
        → Inside pdt tree x (blocks t)
        → located pdt t y x ≡ (enters t y && not (strictly_above t y x))
    located_lem (dom_node at block ts) y homes u inside = ground (
      arith,
      frontier_lem pdt tree x (dom_node at block ts) homes u inside,
      ==_iff block y,
      u.0,
      enters_any-outside ts y,
      located_any-outside pdt ts y x,
      strictly_above_any-outside ts y x,
      located_any_lem ts y homes.1 u.1
          (Inside-right pdt tree x (block ∷ []) (blocks_all ts) inside),
    )

    pub located_any_lem :
        (ts : DomTreeNodes) (y : Ptr)
        → AreHomesAll pdt tree x ts
        → IsUnique (blocks_all ts)
        → Inside pdt tree x (blocks_all ts)
        → located_any pdt ts y x ≡ (enters_any ts y && not (strictly_above_any ts y x))
    located_any_lem no_nodes y homes u inside = refl
    located_any_lem (and_node t ts) y homes u inside = ground (
      arith,
      located_lem t y homes.0 (IsUnique-left (blocks t) (blocks_all ts) u)
          (Inside-left pdt tree x (blocks t) (blocks_all ts) inside),
      located_any_lem ts y homes.1 (IsUnique-right (blocks t) (blocks_all ts) u)
          (Inside-right pdt tree x (blocks t) (blocks_all ts) inside),
      IsUnique-apart (blocks t) (blocks_all ts) y u,
      enters-outside t y,
      strictly_above-outside t y x,
      enters_any-outside ts y,
      strictly_above_any-outside ts y x,
    )
