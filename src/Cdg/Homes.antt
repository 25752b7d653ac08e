-- ===== src/Cdg/Homes.antt =====
-- Where the successors of a block stand in a post-dominator tree.
use icsa_dswp.Prelude.{
  ◌≡◌, refl, sym, ap, ◌∙◌, subst, Bool, true, false, inl, inr, List, arith, ◌==◌, ==_iff, contains,
  contains-append, IsUnique, Bool-ext, not_both,
}
use icsa_dswp.Std.{Ptr, nullptr}
use icsa_dswp.Cdg.{
  DomTreeNode, DomTreeNodes, dom_node, no_nodes, and_node, PostDominatorTree, block_of, children_of,
}
use icsa_dswp.Cdg.Frontier.{blocks, blocks_all, IsUnique-left, IsUnique-right, IsUnique-apart}
use icsa_dswp.Cdg.Ancestors.{
  ats, ats_all, above, above_any, above_any-outside, above-outside, below, below_any, branches,
  IsHome, AreHomes, AreHomesAll,
}
use icsa_dswp.Cdg.Parents.{
  AreParents, AreChildren, child_cases, parent_below, parent_below_any, under_children,
}

module _ (pdt : PostDominatorTree) (x : Ptr) where
  -- What `above` is in the whole tree it is in a part, for the blocks of the part.
  abbrev pub Restricts : (zs : List Ptr) → (Ptr → Ptr → Bool) → Type 0
  Restricts zs part = (y z : Ptr) → contains zs y ≡ true → above pdt.root y z ≡ part y z

  above_self :
      (t : DomTreeNode) (z : Ptr)
      → IsUnique (blocks t)
      → above t (block_of t) z ≡ contains (blocks t) z
  above_self (dom_node at block ts) z u =
      ground (arith, ==_iff block block, u.0, above_any-outside ts block z)

  -- `x` branches only into the trees that `x` is strictly below.
  abbrev pub Keeps : Type 0
  Keeps =
      (y z : Ptr)
      → contains (blocks pdt.root) y ≡ true
      → y == nullptr ≡ false
      → contains (blocks pdt.root) z ≡ true
      → branches pdt (blocks pdt.root) x z ≡ true
      → above pdt.root y x ≡ true
      → y == x ≡ false
      → above pdt.root y z ≡ true

  home :
      (t : DomTreeNode)
      → Keeps
      → AreParents pdt t
      → IsUnique (blocks t)
      → contains (blocks t) nullptr ≡ false
      → ((z : Ptr) → contains (blocks t) z ≡ true → contains (blocks pdt.root) z ≡ true)
      → Restricts (blocks t) (above t)
      → (contains (ats t) (pdt.idom x) ≡ true → contains (below t) x ≡ true)
      → IsHome pdt (blocks pdt.root) x t
  home (dom_node at block ts) keeps p u n inside r h = record {
    parent = Bool-ext _ _ (h, parent_below pdt x (dom_node at block ts) p);
    stays = λ z b i e. ground (
      arith,
      b,
      keeps block z,
      inside block,
      i,
      e,
      r block x,
      r block z,
      above_self (dom_node at block ts) x u,
      above_self (dom_node at block ts) z u,
      u.0,
      n,
      ==_iff block block,
      ==_iff block x,
      ==_iff block nullptr,
    );
  }

  -- Below the root, from what the node above them passes down.
  mutual
    homes :
        (t : DomTreeNode)
        → Keeps
        → AreParents pdt t
        → IsUnique (blocks t)
        → IsUnique (ats t)
        → contains (blocks t) nullptr ≡ false
        → ((z : Ptr) → contains (blocks t) z ≡ true → contains (blocks pdt.root) z ≡ true)
        → Restricts (blocks t) (above t)
        → (contains (ats t) (pdt.idom x) ≡ true → contains (below t) x ≡ true)
        → AreHomes pdt (blocks pdt.root) x t
    homes (dom_node at block ts) keeps p u ua n inside r h = (
      home (dom_node at block ts) keeps p u n inside r h,
      homes_all at ts keeps p u.1 ua.1 (ground (arith, n)) (λ z i. inside z (ground (arith, i)))
          (λ y z i. ground (arith, i, u.0, r y z, ==_iff block y))
          (under_children pdt x at ts p ua.0 (λ i. h (ground (arith, i)))),
    )

    homes_all :
        (parent : Ptr) (ts : DomTreeNodes)
        → Keeps
        → AreChildren pdt parent ts
        → IsUnique (blocks_all ts)
        → IsUnique (ats_all ts)
        → contains (blocks_all ts) nullptr ≡ false
        → ((z : Ptr) → contains (blocks_all ts) z ≡ true → contains (blocks pdt.root) z ≡ true)
        → Restricts (blocks_all ts) (above_any ts)
        → (contains (ats_all ts) (pdt.idom x) ≡ true → below_any ts x ≡ true)
        → AreHomesAll pdt (blocks pdt.root) x ts
    homes_all parent no_nodes keeps c u ua n inside r h = tt
    homes_all parent (and_node t ts) keeps c u ua n inside r h =
        let split = contains-append (blocks t) (blocks_all ts) in
        let joint = contains-append (ats t) (ats_all ts) (pdt.idom x) in
        let apart = IsUnique-apart (ats t) (ats_all ts) (pdt.idom x) ua in
        let apart' = IsUnique-apart (blocks t) (blocks_all ts) in
        (
          homes t keeps c.1 (IsUnique-left (blocks t) (blocks_all ts) u)
              (IsUnique-left (ats t) (ats_all ts) ua) (ground (arith, n, split nullptr))
              (λ z i. inside z (ground (arith, i, split z)))
              (λ y z i. ground (arith, i, r y z, split y, apart' y u, above_any-outside ts y z))
              (λ i. ground (arith, i, joint, apart, h, parent_below_any pdt x parent ts c.2)),
          homes_all parent ts keeps c.2 (IsUnique-right (blocks t) (blocks_all ts) u)
              (IsUnique-right (ats t) (ats_all ts) ua) (ground (arith, n, split nullptr))
              (λ z i. inside z (ground (arith, i, split z)))
              (λ y z i. ground (arith, i, r y z, split y, apart' y u, above-outside t y z))
              (λ i. ground (arith, i, joint, apart, h, parent_below pdt x t c.1)),
        )

  -- From the root, whose block may be null.
  homes_root :
      (t : DomTreeNode)
      → Keeps
      → AreParents pdt t
      → IsUnique (blocks t)
      → IsUnique (ats t)
      → contains (blocks_all (children_of t)) nullptr ≡ false
      → ((z : Ptr) → contains (blocks pdt.root) z ≡ contains (blocks t) z)
      → Restricts (blocks t) (above t)
      → (contains (ats t) (pdt.idom x) ≡ true → contains (below t) x ≡ true)
      → AreHomes pdt (blocks pdt.root) x t
  homes_root (dom_node at block ts) keeps p u ua n whole r h = (
    record {
      parent = Bool-ext _ _ (h, parent_below pdt x (dom_node at block ts) p);
      stays = λ z b i e. sym (whole z) ∙ i;
    },
    homes_all at ts keeps p u.1 ua.1 n (λ z i. ground (arith, i, whole z))
        (λ y z i. ground (arith, i, u.0, r y z, ==_iff block y))
        (under_children pdt x at ts p ua.0 (λ i. h (ground (arith, i)))),
  )

  pub tree_homes :
      Keeps
      → AreParents pdt pdt.root
      → IsUnique (blocks pdt.root)
      → IsUnique (ats pdt.root)
      → contains (blocks_all (children_of pdt.root)) nullptr ≡ false
      → contains (blocks pdt.root) x ≡ true
      → pdt.idom (block_of pdt.root) ≡ nullptr
      → contains (ats pdt.root) nullptr ≡ false
      → AreHomes pdt (blocks pdt.root) x pdt.root
  tree_homes keeps p u ua n inside top real =
      homes_root pdt.root keeps p u ua n (λ z. refl) (λ y z i. refl)
        (λ i. elim (child_cases pdt x pdt.root inside) [
          | inr under ↦ under
          | inl same ↦ absurd (
              not_both
                (subst (λ a. contains (ats pdt.root) a ≡ true) (ap pdt.idom (sym same) ∙ top) i)
                real)
        ])
