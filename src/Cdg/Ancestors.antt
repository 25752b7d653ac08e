-- ===== src/Cdg/Ancestors.antt =====
-- The post-dominance frontier of a node by what lies below the node in the tree.
use icsa_dswp.Prelude.{
  ◌≡◌, refl, Bool, true, false, not, ◌&&◌, ◌||◌, List, [], ◌∷◌, ◌++◌, arith, ◌==◌, ==_iff, contains,
  contains-append, IsUnique, not_both,
}
use icsa_dswp.Std.{Ptr}
use icsa_dswp.Cdg.{DomTreeNode, DomTreeNodes, dom_node, no_nodes, and_node, PostDominatorTree}
use icsa_dswp.Cdg.Frontier.{blocks, blocks_all, IsUnique-left, IsUnique-right}

-- the addresses of the nodes
abbrev mutual
  pub ats : DomTreeNode → List Ptr
  ats (dom_node at block ts) = at ∷ ats_all ts

  pub ats_all : DomTreeNodes → List Ptr
  ats_all no_nodes = []
  ats_all (and_node t ts) = ats t ++ ats_all ts

-- the blocks strictly below a node
abbrev pub below : DomTreeNode → List Ptr
below (dom_node at block ts) = blocks_all ts

-- The block is strictly below one of the nodes.
abbrev pub below_any : DomTreeNodes → Ptr → Bool
below_any no_nodes x = false
below_any (and_node t ts) x = contains (below t) x || below_any ts x

-- The node with the block `y` has `z` in its tree, strictly below it.
abbrev mutual
  pub above : DomTreeNode → Ptr → Ptr → Bool
  above (dom_node at block ts) y z =
      block == y && (block == z || contains (blocks_all ts) z) || above_any ts y z

  pub above_any : DomTreeNodes → Ptr → Ptr → Bool
  above_any no_nodes y z = false
  above_any (and_node t ts) y z = above t y z || above_any ts y z

abbrev mutual
  pub strictly_above : DomTreeNode → Ptr → Ptr → Bool
  strictly_above (dom_node at block ts) y z =
      block == y && contains (blocks_all ts) z || strictly_above_any ts y z

  pub strictly_above_any : DomTreeNodes → Ptr → Ptr → Bool
  strictly_above_any no_nodes y z = false
  strictly_above_any (and_node t ts) y z = strictly_above t y z || strictly_above_any ts y z

mutual
  pub above-outside :
      (t : DomTreeNode) (y z : Ptr) → contains (blocks t) y ≡ false → above t y z ≡ false
  above-outside (dom_node at block ts) y z h = ground (arith, above_any-outside ts y z)

  pub above_any-outside :
      (ts : DomTreeNodes) (y z : Ptr)
      → contains (blocks_all ts) y ≡ false
      → above_any ts y z ≡ false
  above_any-outside no_nodes y z h = refl
  above_any-outside (and_node t ts) y z h = ground (
    arith,
    above-outside t y z,
    above_any-outside ts y z,
    contains-append (blocks t) (blocks_all ts) y,
  )

mutual
  pub strictly_above-outside :
      (t : DomTreeNode) (y z : Ptr) → contains (blocks t) y ≡ false → strictly_above t y z ≡ false
  strictly_above-outside (dom_node at block ts) y z h =
      ground (arith, strictly_above_any-outside ts y z)

  pub strictly_above_any-outside :
      (ts : DomTreeNodes) (y z : Ptr)
      → contains (blocks_all ts) y ≡ false
      → strictly_above_any ts y z ≡ false
  strictly_above_any-outside no_nodes y z h = refl
  strictly_above_any-outside (and_node t ts) y z h = ground (
    arith,
    strictly_above-outside t y z,
    strictly_above_any-outside ts y z,
    contains-append (blocks t) (blocks_all ts) y,
  )

mutual
  pub strictly_above_lem :
      (t : DomTreeNode) (y z : Ptr)
      → IsUnique (blocks t)
      → strictly_above t y z ≡ (above t y z && not (y == z))
  strictly_above_lem (dom_node at block ts) y z u =
      ground
        (arith, strictly_above_any_lem ts y z u.1, u.0, ==_iff block y, ==_iff block z, ==_iff y z)

  strictly_above_any_lem :
      (ts : DomTreeNodes) (y z : Ptr)
      → IsUnique (blocks_all ts)
      → strictly_above_any ts y z ≡ (above_any ts y z && not (y == z))
  strictly_above_any_lem no_nodes y z u = refl
  strictly_above_any_lem (and_node t ts) y z u = ground (
    arith,
    strictly_above_lem t y z (IsUnique-left (blocks t) (blocks_all ts) u),
    strictly_above_any_lem ts y z (IsUnique-right (blocks t) (blocks_all ts) u),
  )

mutual
  pub above_inside :
      (t : DomTreeNode) (y z : Ptr) → above t y z ≡ true → contains (blocks t) z ≡ true
  above_inside (dom_node at block ts) y z h = ground (arith, h, above_any_inside ts y z)

  above_any_inside :
      (ts : DomTreeNodes) (y z : Ptr) → above_any ts y z ≡ true → contains (blocks_all ts) z ≡ true
  above_any_inside no_nodes y z h = absurd (not_both h refl)
  above_any_inside (and_node t ts) y z h = ground (
    arith,
    h,
    contains-append (blocks t) (blocks_all ts) z,
    above_inside t y z,
    above_any_inside ts y z,
  )

below_blocks :
    (t : DomTreeNode) (x : Ptr) → contains (below t) x ≡ true → contains (blocks t) x ≡ true
below_blocks (dom_node at block ts) x h = ground (arith, h)

pub below_any_blocks :
    (ts : DomTreeNodes) (x : Ptr) → below_any ts x ≡ true → contains (blocks_all ts) x ≡ true
below_any_blocks no_nodes x h = absurd (not_both h refl)
below_any_blocks (and_node t ts) x h = ground (
  arith,
  h,
  below_blocks t x,
  below_any_blocks ts x,
  contains-append (blocks t) (blocks_all ts) x,
)

module _ (pdt : PostDominatorTree) (tree : List Ptr) (x : Ptr) where
  -- `x` branches to `z`.
  abbrev pub branches : Ptr → Bool
  branches z = contains (pdt.preds z) x

  -- For a node of the tree: the parent of `x` is in its tree exactly if `x` is strictly below it,
  -- and then so is where `x` branches to, or it is the node itself.
  pub record IsHome (t : DomTreeNode) : Type 0 where
    pub parent : contains (ats t) (pdt.idom x) ≡ contains (below t) x
    pub stays :
        (z : Ptr)
        → contains (below t) x ≡ true
        → contains tree z ≡ true
        → branches z ≡ true
        → contains (blocks t) z ≡ true

  -- This holds of each node.
  abbrev mutual
    pub AreHomes : DomTreeNode → Type 0
    AreHomes (dom_node at block ts) = IsHome (dom_node at block ts) × AreHomesAll ts

    pub AreHomesAll : DomTreeNodes → Type 0
    AreHomesAll no_nodes = Unit
    AreHomesAll (and_node t ts) = AreHomes t × AreHomesAll ts

  pub AreHomes-head : (t : DomTreeNode) → AreHomes t → IsHome t
  AreHomes-head (dom_node at block ts) h = h.0

  pub ats_below :
      (ts : DomTreeNodes) → AreHomesAll ts → contains (ats_all ts) (pdt.idom x) ≡ below_any ts x
  ats_below no_nodes h = refl
  ats_below (and_node t ts) h = ground (
    arith,
    contains-append (ats t) (ats_all ts) (pdt.idom x),
    (AreHomes-head t h.0).parent,
    ats_below ts h.1,
  )

  pub stays_below :
      (ts : DomTreeNodes) (z : Ptr)
      → AreHomesAll ts
      → below_any ts x ≡ true
      → contains tree z ≡ true
      → branches z ≡ true
      → contains (blocks_all ts) z ≡ true
  stays_below no_nodes z h b i e = absurd (not_both b refl)
  stays_below (and_node t ts) z h b i e = ground (
    arith,
    b,
    i,
    e,
    contains-append (blocks t) (blocks_all ts) z,
    (AreHomes-head t h.0).stays z,
    stays_below ts z h.1,
  )
