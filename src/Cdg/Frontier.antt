-- ===== src/Cdg/Frontier.antt =====
-- The post-dominance frontiers by recursion on the tree, and that the pass computes them.
use icsa_dswp.Prelude.{
  ◌≡◌, refl, sym, ◌∙◌, subst, Bool, true, false, not, ◌&&◌, ◌||◌, List, [], ◌∷◌, ◌++◌, arith, ◌==◌,
  ==_iff, if◌then◌else◌, contains, contains-append, IsUnique,
}
use icsa_dswp.Std.{Ptr, nullptr}
use icsa_dswp.Std.PtrSet.{PtrSet}
use icsa_dswp.Std.PtrMap.{PtrMap}
use icsa_dswp.Cdg.{
  DomTreeNode, DomTreeNodes, dom_node, no_nodes, and_node, PostDominatorTree, block_of,
  add_frontier, add_frontiers,
}
use icsa_dswp.Cdg.Traversal.{post_order, post_order_all}
use icsa_dswp.Cdg.Inserts.{member, tops, child_any, member-add_frontier}

abbrev mutual
  pub blocks : DomTreeNode → List Ptr
  blocks (dom_node at block ts) = block ∷ blocks_all ts

  pub blocks_all : DomTreeNodes → List Ptr
  blocks_all no_nodes = []
  blocks_all (and_node t ts) = blocks t ++ blocks_all ts

module _ (pdt : PostDominatorTree) where
  -- The frontier of the root of a tree: the predecessors of its block and the frontiers of its
  -- children, without the blocks that it immediately post-dominates.
  abbrev mutual
    pub frontier : DomTreeNode → Ptr → Bool
    frontier (dom_node at block ts) b =
        not (pdt.idom b == at) && (contains (pdt.preds block) b || frontier_any ts b)

    pub frontier_any : DomTreeNodes → Ptr → Bool
    frontier_any no_nodes b = false
    frontier_any (and_node t ts) b = frontier t b || frontier_any ts b

  -- The block `b` is in the frontier of the node of the tree with the block `k`.
  abbrev mutual
    pub located : DomTreeNode → Ptr → Ptr → Bool
    located (dom_node at block ts) k b =
        block == k && frontier (dom_node at block ts) b || located_any ts k b

    pub located_any : DomTreeNodes → Ptr → Ptr → Bool
    located_any no_nodes k b = false
    located_any (and_node t ts) k b = located t k b || located_any ts k b

  mutual
    pub located-outside :
        (t : DomTreeNode) (k b : Ptr) → contains (blocks t) k ≡ false → located t k b ≡ false
    located-outside (dom_node at block ts) k b h = ground (arith, located_any-outside ts k b)

    pub located_any-outside :
        (ts : DomTreeNodes) (k b : Ptr)
        → contains (blocks_all ts) k ≡ false
        → located_any ts k b ≡ false
    located_any-outside no_nodes k b h = refl
    located_any-outside (and_node t ts) k b h = ground (
      arith,
      located-outside t k b,
      located_any-outside ts k b,
      contains-append (blocks t) (blocks_all ts) k,
    )

pub IsUnique-left : (xs ys : List Ptr) → IsUnique (xs ++ ys) → IsUnique xs
IsUnique-left [] ys u = tt
IsUnique-left (x ∷ xs) ys u =
    (ground (arith, contains-append xs ys x, u.0), IsUnique-left xs ys u.1)

pub IsUnique-right : (xs ys : List Ptr) → IsUnique (xs ++ ys) → IsUnique ys
IsUnique-right [] ys u = u
IsUnique-right (x ∷ xs) ys u = IsUnique-right xs ys u.1

pub IsUnique-apart :
    (xs ys : List Ptr) (k : Ptr)
    → IsUnique (xs ++ ys)
    → contains xs k ≡ true
    → contains ys k ≡ false
IsUnique-apart [] ys k u h = cc
IsUnique-apart (x ∷ xs) ys k u h =
    ground (arith, IsUnique-apart xs ys k u.1, u.0, contains-append xs ys x, ==_iff x k)

tops_inside :
    (ts : DomTreeNodes) (k : Ptr)
    → contains (blocks_all ts) k ≡ false
    → contains (tops ts) k ≡ false
tops_inside no_nodes k h = refl
tops_inside (and_node (dom_node at block us) ts) k h =
    ground (arith, tops_inside ts k, contains-append (blocks_all us) (blocks_all ts) k)

module _ (pdt : PostDominatorTree) where
  pub add_frontiers-append :
      (xs ys : List DomTreeNode) (m : PtrMap PtrSet)
      → add_frontiers pdt (xs ++ ys) m ≡ add_frontiers pdt ys (add_frontiers pdt xs m)
  unfolding add_frontiers
  add_frontiers-append [] ys m = refl
  add_frontiers-append (x ∷ xs) ys m = add_frontiers-append xs ys (add_frontier pdt x m)

  -- The map has nothing yet on the blocks of a list.
  abbrev Fresh : List Ptr → PtrMap PtrSet → Type 0
  Fresh ks m = (k b : Ptr) → contains ks k ≡ true → member m k b ≡ false

  abbrev Adds : (Ptr → Ptr → Bool) → PtrMap PtrSet → PtrMap PtrSet → Type 0
  Adds new m m' = (k b : Ptr) → member m' k b ≡ (new k b || member m k b)

  round :
      (at block : Ptr) (ts : DomTreeNodes) (m m' : PtrMap PtrSet)
      → contains (blocks_all ts) block ≡ false
      → Adds (located_any pdt ts) m m'
      → ((b : Ptr) → child_any m' ts b ≡ frontier_any pdt ts b)
      → Adds (located pdt (dom_node at block ts)) m (add_frontier pdt (dom_node at block ts) m')
  round at block ts m m' out adds children k b = ground (
    arith,
    member-add_frontier pdt at block ts m' k b (tops_inside ts block out),
    adds k b,
    children b,
  )

  located_self :
      (t : DomTreeNode) (b : Ptr)
      → IsUnique (blocks t)
      → located pdt t (block_of t) b ≡ frontier pdt t b
  located_self (dom_node at block ts) b u =
      ground (arith, located_any-outside pdt ts block b u.0, ==_iff block block)

  self_inside : (t : DomTreeNode) → contains (blocks t) (block_of t) ≡ true
  self_inside (dom_node at block ts) = ground (arith, ==_iff block block)

  last :
      (t : DomTreeNode) (b : Bool) (m : PtrMap PtrSet)
      → b ≡ false
      → add_frontiers pdt (if b then [] else t ∷ []) m ≡ add_frontier pdt t m
  unfolding add_frontiers
  last t true m h = cc
  last t false m h = refl

  mutual
    unfolding post_order add_frontiers

    pub tree_lem :
        (t : DomTreeNode) (m : PtrMap PtrSet)
        → IsUnique (blocks t)
        → contains (blocks t) nullptr ≡ false
        → Fresh (blocks t) m
        → Adds (located pdt t) m (add_frontiers pdt (post_order t) m)
    tree_lem (dom_node at block ts) m u n fresh =
        let m' = add_frontiers pdt (post_order_all ts) m in
        let (adds, children) =
          forest_lem ts m u.1 (ground arith) (λ k b h. fresh k b (ground arith)) in
        subst (Adds (located pdt (dom_node at block ts)) m)
          (sym (
            add_frontiers-append (post_order_all ts)
              (if block == nullptr then [] else dom_node at block ts ∷ []) m
            ∙ last (dom_node at block ts) (block == nullptr) m' (ground arith)))
          (round at block ts m m' u.0 adds children)

    pub forest_lem :
        (ts : DomTreeNodes) (m : PtrMap PtrSet)
        → IsUnique (blocks_all ts)
        → contains (blocks_all ts) nullptr ≡ false
        → Fresh (blocks_all ts) m
        → Adds (located_any pdt ts) m (add_frontiers pdt (post_order_all ts) m)
          × ((b : Ptr)
              → child_any (add_frontiers pdt (post_order_all ts) m) ts b ≡ frontier_any pdt ts b)
    forest_lem no_nodes m u n fresh = (λ k b. refl, λ b. refl)
    forest_lem (and_node t ts) m u n fresh =
        let m₁ = add_frontiers pdt (post_order t) m in
        let apart = IsUnique-apart (blocks t) (blocks_all ts) in
        let u₁ = IsUnique-left (blocks t) (blocks_all ts) u in
        let split = contains-append (blocks t) (blocks_all ts) in
        let first =
          tree_lem t m u₁ (ground (arith, split nullptr))
            (λ k b h. fresh k b (ground (arith, split k))) in
        let (second, children) =
          forest_lem ts m₁ (IsUnique-right (blocks t) (blocks_all ts) u)
            (ground (arith, split nullptr))
            (λ k b h.
              ground
                (arith, first k b, located-outside pdt t k b, apart k u, fresh k b, split k, h)) in
        let joined = add_frontiers-append (post_order t) (post_order_all ts) m in
        subst
          (λ m₂.
            Adds (located_any pdt (and_node t ts)) m m₂
            × ((b : Ptr) → child_any m₂ (and_node t ts) b ≡ frontier_any pdt (and_node t ts) b))
          (sym joined)
          (
            λ k b. ground (arith, first k b, second k b),
            λ b. ground (
              arith,
              children b,
              first (block_of t) b,
              second (block_of t) b,
              located_self t b u₁,
              located_any-outside pdt ts (block_of t) b,
              apart (block_of t) u,
              self_inside t,
              fresh (block_of t) b,
              split (block_of t),
            ),
          )
