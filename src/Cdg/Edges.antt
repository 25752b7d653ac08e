-- ===== src/Cdg/Edges.antt =====
-- The edges of the control dependence graph.
use icsa_dswp.Prelude.{
  ◌≡◌, refl, sym, ◌∙◌, subst, Bool, true, false, inl, inr, List, [], ◌∷◌, arith, ◌==◌, ==_iff,
  if◌then◌else◌, Bool-cases, contains, IsUnique, if_ind, not_both,
}
use icsa_dswp.Std.{Ptr, nullptr}
use icsa_dswp.Std.PtrSet.{PtrSet, insert}
use icsa_dswp.Std.PtrMap
use icsa_dswp.Std.PtrMap.{PtrMap}
use icsa_dswp.Outcome.{ok}
use icsa_dswp.Dependence.{DependenceGraph, empty, has_edge}
use icsa_dswp.Dependence.Order.{IsOrdered}
use icsa_dswp.GraphUtils.{add_nodes, reverse_edges, transpose}
use icsa_dswp.GraphUtils.Transpose.{
  has_edge-add_nodes, has_edge-reverse_edges, edge_in-find, transpose-IsOrdered,
}
use icsa_dswp.Cdg.{
  DomTreeNode, DomTreeNodes, dom_node, no_nodes, and_node, PostDominatorTree, block_of, children_of,
  insert_blocks, insert_children, add_frontier, add_frontiers, get_post_dom_frontier,
  run_on_function,
}
use icsa_dswp.Cdg.Traversal.{post_order, post_order_all, get_bottom_up_traversal_lem}
use icsa_dswp.Cdg.Inserts.{member}
use icsa_dswp.Cdg.Frontier.{
  located-outside, located_any-outside, blocks, blocks_all, located, add_frontiers-append, tree_lem,
  forest_lem,
}

module _ (pdt : PostDominatorTree) where
  insert_blocks-IsAscending :
      (current blk : Ptr) (bs : List Ptr) (m : PtrMap PtrSet)
      → PtrMap.IsAscending m
      → PtrMap.IsAscending (insert_blocks pdt current blk bs m)
  unfolding insert_blocks
  insert_blocks-IsAscending current blk [] m a = a
  insert_blocks-IsAscending current blk (b ∷ bs) m a = insert_blocks-IsAscending current blk bs _ (
      if_ind PtrMap.IsAscending (pdt.idom b == current) a
        (PtrMap.assign-IsAscending blk (insert b (PtrMap.get_or m blk [])) m a))

  insert_children-IsAscending :
      (current blk : Ptr) (ts : DomTreeNodes) (m : PtrMap PtrSet)
      → PtrMap.IsAscending m
      → PtrMap.IsAscending (insert_children pdt current blk ts m)
  unfolding insert_children
  insert_children-IsAscending current blk no_nodes m a = a
  insert_children-IsAscending current blk (and_node t ts) m a =
      insert_children-IsAscending current blk ts _ (
        insert_blocks-IsAscending current blk
          (PtrMap.get_or (PtrMap.touch (block_of t) [] m) (block_of t) [])
          (PtrMap.touch (block_of t) [] m) (PtrMap.touch-IsAscending (block_of t) [] m a))

  add_frontiers-IsAscending :
      (ts : List DomTreeNode) (m : PtrMap PtrSet)
      → PtrMap.IsAscending m
      → PtrMap.IsAscending (add_frontiers pdt ts m)
  unfolding add_frontiers add_frontier
  add_frontiers-IsAscending [] m a = a
  add_frontiers-IsAscending (dom_node at blk us ∷ ts) m a = add_frontiers-IsAscending ts _ (
      insert_children-IsAscending at blk us _
        (insert_blocks-IsAscending at blk (pdt.preds blk) _ (PtrMap.touch-IsAscending blk [] m a)))

  gone :
      (t : DomTreeNode) (b : Bool) (m : PtrMap PtrSet)
      → b ≡ true
      → add_frontiers pdt (if b then [] else t ∷ []) m ≡ m
  unfolding add_frontiers
  gone t true m h = refl
  gone t false m h = cc

  -- From the root, which alone may be virtual.
  pub root_lem :
      (t : DomTreeNode) (k b : Ptr)
      → IsUnique (blocks t)
      → contains (blocks_all (children_of t)) nullptr ≡ false
      → k == nullptr ≡ false
      → member (add_frontiers pdt (post_order t) []) k b ≡ located pdt t k b
  unfolding post_order add_frontiers PtrMap.find
  root_lem (dom_node at block ts) k b u n real = elim (Bool-cases (block == nullptr)) [
    | inr there ↦ ground (
      arith,
      tree_lem pdt (dom_node at block ts) [] u (ground (arith, there, n)) (λ j c h. refl) k b,
    )
    | inl virtual ↦
        subst (λ m. member m k b ≡ located pdt (dom_node at block ts) k b)
          (sym (
            add_frontiers-append pdt (post_order_all ts)
              (if block == nullptr then [] else dom_node at block ts ∷ []) []
            ∙ gone (dom_node at block ts) (block == nullptr) _ virtual))
          (ground (
            arith,
            (forest_lem pdt ts [] u.1 n (λ j c h. refl)).0 k b,
            virtual,
            real,
            ==_iff block k,
          ))
  ]

  -- No frontier is filed under the null pointer.
  null_lem :
      (t : DomTreeNode) (b : Ptr)
      → IsUnique (blocks t)
      → contains (blocks_all (children_of t)) nullptr ≡ false
      → member (add_frontiers pdt (post_order t) []) nullptr b ≡ false
  unfolding post_order add_frontiers PtrMap.find
  null_lem (dom_node at block ts) b u n = elim (Bool-cases (block == nullptr)) [
    | inr there ↦ ground (
      arith,
      tree_lem pdt (dom_node at block ts) [] u (ground (arith, there, n)) (λ j c h. refl) nullptr b,
      located-outside pdt (dom_node at block ts) nullptr b,
      there,
      n,
    )
    | inl virtual ↦
        subst (λ m. member m nullptr b ≡ false)
          (sym (
            add_frontiers-append pdt (post_order_all ts)
              (if block == nullptr then [] else dom_node at block ts ∷ []) []
            ∙ gone (dom_node at block ts) (block == nullptr) _ virtual))
          (ground (
            arith,
            (forest_lem pdt ts [] u.1 n (λ j c h. refl)).0 nullptr b,
            located_any-outside pdt ts nullptr b,
            n,
          ))
  ]

  abbrev pub pdf : PtrMap PtrSet
  pdf = add_frontiers pdt (post_order pdt.root) []

  -- the graph that the pass leaves
  abbrev pub graph : DependenceGraph
  graph = reverse_edges pdf (add_nodes pdf empty)

  pub run-graph : run_on_function pdt empty ≡ ok graph
  unfolding run_on_function get_post_dom_frontier
  run-graph = rw (get_bottom_up_traversal_lem pdt)

  pub graph-IsOrdered : IsOrdered graph
  unfolding transpose
  graph-IsOrdered = transpose-IsOrdered (record { nodes = pdf })

  pub has_edge-graph : (x y : Ptr) → has_edge graph x y ≡ member pdf y x
  unfolding PtrMap.find
  has_edge-graph x y =
      has_edge-reverse_edges pdf (add_nodes pdf empty) x y
      ∙ ground (
        arith,
        has_edge-add_nodes pdf empty x y,
        edge_in-find pdf y x (add_frontiers-IsAscending (post_order pdt.root) [] tt),
      )

  module _ (unique : IsUnique (blocks pdt.root))
      (rooted : contains (blocks_all (children_of pdt.root)) nullptr ≡ false) where
    -- If the blocks of the post-dominator tree are distinct and only its root may have none, the
    -- pass returns. A block then depends on another one in the graph exactly if the other one is
    -- in its post-dominance frontier, which has its predecessors and the frontiers of its children
    -- in the tree without the blocks that it immediately post-dominates.
    cdg_lem :
        (x y : Ptr)
        → y == nullptr ≡ false
        → (cdg : DependenceGraph) × (run_on_function pdt empty ≡ ok cdg)
          × (has_edge cdg x y ≡ located pdt pdt.root y x)
    cdg_lem x y real =
        (graph, run-graph, has_edge-graph x y ∙ root_lem pdt.root y x unique rooted real)

    -- What depends on a block is a block of the tree.
    pub graph_edge :
        (x y : Ptr)
        → has_edge graph x y ≡ true
        → (y == nullptr ≡ false) × (located pdt pdt.root y x ≡ true)
    graph_edge x y e = elim (Bool-cases (y == nullptr)) [
      | inl null ↦ absurd (
          not_both
            (sym (has_edge-graph x nullptr)
              ∙ subst (λ k. has_edge graph x k ≡ true) ((==_iff y nullptr).0 null) e)
            (null_lem pdt.root x unique rooted))
      | inr real ↦
          (real, sym (root_lem pdt.root y x unique rooted real) ∙ sym (has_edge-graph x y) ∙ e)
    ]
