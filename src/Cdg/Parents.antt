-- ===== src/Cdg/Parents.antt =====
-- Where the parent of a block stands in a post-dominator tree.
use icsa_dswp.Prelude.{
  ◌≡◌, refl, subst, true, false, ◌⊎◌, inl, inr, arith, ==_iff, contains, contains-append,
  contains-append_cases, not_both,
}
use icsa_dswp.Std.{Ptr}
use icsa_dswp.Cdg.{
  DomTreeNode, DomTreeNodes, dom_node, no_nodes, and_node, PostDominatorTree, block_of,
}
use icsa_dswp.Cdg.Frontier.{blocks, blocks_all}
use icsa_dswp.Cdg.Ancestors.{ats, ats_all, below, below_any}

-- The parent of each block below is the node that it is a child of.
abbrev mutual
  pub AreParents : PostDominatorTree → DomTreeNode → Type 0
  AreParents pdt (dom_node at block ts) = AreChildren pdt at ts

  pub AreChildren : PostDominatorTree → Ptr → DomTreeNodes → Type 0
  AreChildren pdt parent no_nodes = Unit
  AreChildren pdt parent (and_node t ts) =
      (pdt.idom (block_of t) ≡ parent) × AreParents pdt t × AreChildren pdt parent ts

module _ (pdt : PostDominatorTree) (x : Ptr) where
  pub child_cases :
      (t : DomTreeNode)
      → contains (blocks t) x ≡ true
      → (block_of t ≡ x) ⊎ (contains (below t) x ≡ true)
  child_cases (dom_node at block ts) h = ground (arith, h, ==_iff block x)

  -- A block among children is one of theirs or further below.
  pub children_cases :
      (parent : Ptr) (ts : DomTreeNodes)
      → AreChildren pdt parent ts
      → contains (blocks_all ts) x ≡ true
      → (pdt.idom x ≡ parent) ⊎ (below_any ts x ≡ true)
  children_cases parent no_nodes c h = absurd (not_both h refl)
  children_cases parent (and_node t ts) c h =
      elim (contains-append_cases (blocks t) (blocks_all ts) x h) [
        | inr later ↦ ground (arith, children_cases parent ts c.2 later)
        | inl here ↦ elim (child_cases t here) [
          | inl same ↦ inl (subst (λ b. pdt.idom b ≡ parent) same c.0)
          | inr under ↦ inr (ground (arith, under))
        ]
      ]

  mutual
    -- The parent of a block strictly below a node is in the tree of the node.
    pub parent_below :
        (t : DomTreeNode)
        → AreParents pdt t
        → contains (below t) x ≡ true
        → contains (ats t) (pdt.idom x) ≡ true
    parent_below (dom_node at block ts) p h = elim (children_cases at ts p h) [
      | inl direct ↦ ground (arith, direct, ==_iff at (pdt.idom x))
      | inr under ↦ ground (arith, parent_below_any at ts p under)
    ]

    pub parent_below_any :
        (parent : Ptr) (ts : DomTreeNodes)
        → AreChildren pdt parent ts
        → below_any ts x ≡ true
        → contains (ats_all ts) (pdt.idom x) ≡ true
    parent_below_any parent no_nodes c h = absurd (not_both h refl)
    parent_below_any parent (and_node t ts) c h = ground (
      arith,
      h,
      contains-append (ats t) (ats_all ts) (pdt.idom x),
      parent_below t c.1,
      parent_below_any parent ts c.2,
    )

  -- If the parent of a block is one of the nodes below, the block is below one of these.
  pub under_children :
      (at : Ptr) (ts : DomTreeNodes)
      → AreChildren pdt at ts
      → contains (ats_all ts) at ≡ false
      → (contains (ats_all ts) (pdt.idom x) ≡ true → contains (blocks_all ts) x ≡ true)
      → contains (ats_all ts) (pdt.idom x) ≡ true
      → below_any ts x ≡ true
  under_children at ts p out h i = elim (children_cases at ts p (h i)) [
    | inl direct ↦ absurd (not_both (subst (λ a. contains (ats_all ts) a ≡ true) direct i) out)
    | inr under ↦ under
  ]
