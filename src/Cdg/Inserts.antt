-- ===== src/Cdg/Inserts.antt =====
-- What one round of `getPostDomFrontier` inserts.
use icsa_dswp.Prelude.{
  ◌≡◌, refl, Bool, false, not, ◌&&◌, ◌||◌, List, [], ◌∷◌, arith, ◌==◌, ==_iff, contains,
}
use icsa_dswp.Std.{Ptr}
use icsa_dswp.Std.PtrSet.{PtrSet, insert, contains-insert}
use icsa_dswp.Std.PtrMap
use icsa_dswp.Std.PtrMap.{PtrMap, find-assign, find-touch}
use icsa_dswp.Cdg.{
  DomTreeNodes, dom_node, no_nodes, and_node, PostDominatorTree, block_of, insert_blocks,
  insert_children, add_frontier,
}

-- The block is in the set of the map.
abbrev pub member : PtrMap PtrSet → Ptr → Ptr → Bool
member m k b = contains (PtrMap.get_or m k []) b

-- the blocks of the trees' roots
abbrev pub tops : DomTreeNodes → List Ptr
tops no_nodes = []
tops (and_node t ts) = block_of t ∷ tops ts

-- The block is in the set of one of the roots.
abbrev pub child_any : PtrMap PtrSet → DomTreeNodes → Ptr → Bool
child_any m no_nodes b = false
child_any m (and_node t ts) b = member m (block_of t) b || child_any m ts b

child_any-same :
    (m m' : PtrMap PtrSet) (blk : Ptr) (ts : DomTreeNodes) (b : Ptr)
    → contains (tops ts) blk ≡ false
    → ((k : Ptr) → blk == k ≡ false → member m' k b ≡ member m k b)
    → child_any m' ts b ≡ child_any m ts b
child_any-same m m' blk no_nodes b out same = refl
child_any-same m m' blk (and_node t ts) b out same =
    ground (arith, child_any-same m m' blk ts b, same (block_of t), ==_iff blk (block_of t))

member-touch :
    (c : Ptr) (m : PtrMap PtrSet) (k b : Ptr) → member (PtrMap.touch c [] m) k b ≡ member m k b
member-touch c m k b = ground (arith, find-touch c [] m k)

module _ (pdt : PostDominatorTree) where
  pub member-insert_blocks :
      (current blk : Ptr) (bs : List Ptr) (m : PtrMap PtrSet) (k b : Ptr)
      → member (insert_blocks pdt current blk bs m) k b
        ≡ (blk == k && not (pdt.idom b == current) && contains bs b || member m k b)
  unfolding insert_blocks
  member-insert_blocks current blk [] m k b = ground arith
  member-insert_blocks current blk (x ∷ bs) m k b = ground (
    arith,
    member-insert_blocks current blk bs m k b,
    member-insert_blocks current blk bs (PtrMap.assign blk (insert x (PtrMap.get_or m blk [])) m) k
        b,
    find-assign blk (insert x (PtrMap.get_or m blk [])) m k,
    contains-insert x (PtrMap.get_or m blk []) b,
    ==_iff x b,
  )

  member-insert_children :
      (current blk : Ptr) (ts : DomTreeNodes) (m : PtrMap PtrSet) (k b : Ptr)
      → contains (tops ts) blk ≡ false
      → member (insert_children pdt current blk ts m) k b
        ≡ (blk == k && not (pdt.idom b == current) && child_any m ts b || member m k b)
  unfolding insert_children
  member-insert_children current blk no_nodes m k b out = ground arith
  member-insert_children current blk (and_node t ts) m k b out =
      let touched = PtrMap.touch (block_of t) [] m in
      let set = PtrMap.get_or touched (block_of t) [] in
      let m' = insert_blocks pdt current blk set touched in
      ground (
        arith,
        member-insert_children current blk ts m' k b (ground arith),
        child_any-same m m' blk ts b (ground arith) (λ j other. ground (
          arith,
          member-insert_blocks current blk set touched j b,
          member-touch (block_of t) m j b,
        )),
        member-insert_blocks current blk set touched k b,
        member-touch (block_of t) m k b,
        member-touch (block_of t) m (block_of t) b,
      )

  pub member-add_frontier :
      (at blk : Ptr) (ts : DomTreeNodes) (m : PtrMap PtrSet) (k b : Ptr)
      → contains (tops ts) blk ≡ false
      → member (add_frontier pdt (dom_node at blk ts) m) k b ≡ (
          blk == k && not (pdt.idom b == at) && (contains (pdt.preds blk) b || child_any m ts b)
          || member m k b)
  unfolding add_frontier
  member-add_frontier at blk ts m k b out =
      let touched = PtrMap.touch blk [] m in
      let m' = insert_blocks pdt at blk (pdt.preds blk) touched in
      ground (
        arith,
        member-insert_children at blk ts m' k b out,
        child_any-same m m' blk ts b out (λ j other. ground (
          arith,
          member-insert_blocks at blk (pdt.preds blk) touched j b,
          member-touch blk m j b,
        )),
        member-insert_blocks at blk (pdt.preds blk) touched k b,
        member-touch blk m k b,
      )
