-- ===== src/Passes/Blocks.antt =====
-- What the control dependence graph names: blocks of the tree, and predecessors of such blocks.
use icsa_dswp.Prelude.{
  ◌≡◌, refl, Bool, true, inl, inr, List, arith, ==_iff, Bool-cases, contains, contains-append,
  not_both,
}
use icsa_dswp.Std.{Ptr}
use icsa_dswp.Cdg.{DomTreeNode, DomTreeNodes, dom_node, no_nodes, and_node, PostDominatorTree}
use icsa_dswp.Cdg.Frontier.{blocks, blocks_all, frontier, frontier_any, located, located_any}

module _ (pdt : PostDominatorTree) (is_block : Ptr → Bool) where
  -- The predecessors of the blocks of a list are blocks.
  abbrev pub HasBlocks : List Ptr → Type 0
  HasBlocks bs =
      (c b : Ptr) → contains bs c ≡ true → contains (pdt.preds c) b ≡ true → is_block b ≡ true

  mutual
    frontier_block :
        (t : DomTreeNode) (b : Ptr)
        → HasBlocks (blocks t)
        → frontier pdt t b ≡ true
        → is_block b ≡ true
    frontier_block (dom_node at block ts) b has h =
        elim (Bool-cases (contains (pdt.preds block) b)) [
          | inl pred ↦ has block b (ground (arith, ==_iff block block)) pred
          | inr other ↦ frontier_any_block ts b (λ c d i. has c d (ground arith)) (ground arith)
        ]

    frontier_any_block :
        (ts : DomTreeNodes) (b : Ptr)
        → HasBlocks (blocks_all ts)
        → frontier_any pdt ts b ≡ true
        → is_block b ≡ true
    frontier_any_block no_nodes b has h = absurd (not_both h refl)
    frontier_any_block (and_node t ts) b has h = elim (Bool-cases (frontier pdt t b)) [
      | inl now ↦
          frontier_block t b
            (λ c d i. has c d (ground (arith, contains-append (blocks t) (blocks_all ts) c))) now
      | inr other ↦
          frontier_any_block ts b
            (λ c d i. has c d (ground (arith, contains-append (blocks t) (blocks_all ts) c)))
            (ground arith)
    ]

  mutual
    pub located_block :
        (t : DomTreeNode) (k b : Ptr)
        → HasBlocks (blocks t)
        → located pdt t k b ≡ true
        → is_block b ≡ true
    located_block (dom_node at block ts) k b has h =
        elim (Bool-cases (frontier pdt (dom_node at block ts) b)) [
          | inl now ↦ frontier_block (dom_node at block ts) b has now
          | inr other ↦ located_any_block ts k b (λ c d i. has c d (ground arith)) (ground arith)
        ]

    located_any_block :
        (ts : DomTreeNodes) (k b : Ptr)
        → HasBlocks (blocks_all ts)
        → located_any pdt ts k b ≡ true
        → is_block b ≡ true
    located_any_block no_nodes k b has h = absurd (not_both h refl)
    located_any_block (and_node t ts) k b has h = elim (Bool-cases (located pdt t k b)) [
      | inl now ↦
          located_block t k b
            (λ c d i. has c d (ground (arith, contains-append (blocks t) (blocks_all ts) c))) now
      | inr other ↦
          located_any_block ts k b
            (λ c d i. has c d (ground (arith, contains-append (blocks t) (blocks_all ts) c)))
            (ground arith)
    ]
