-- ===== src/Cdg/Traversal.antt =====
-- `getBottomUpTraversal` is the post-order of the post-dominator tree.
use icsa_dswp.Prelude.{
  ℕ, zero, suc, ◌+◌, ◌<◌, ◌≡◌, refl, sym, ap, ◌∙◌, Bool, true, false, List, [], ◌∷◌, ◌++◌, arith,
  ◌==◌, if◌then◌else◌,
}
use mathlib.Core.List.{append_assoc, append-nil}
use icsa_dswp.Std.{nullptr}
use icsa_dswp.Outcome.{ok}
use icsa_dswp.Cdg.{
  DomTreeNode, DomTreeNodes, dom_node, no_nodes, and_node, PostDominatorTree, push_all, traverse,
  size, size_all, get_bottom_up_traversal,
}

-- The nodes with a block, each after its children.
unfoldable mutual
  pub post_order : DomTreeNode → List DomTreeNode
  post_order (dom_node at block ts) =
      post_order_all ts ++ (if block == nullptr then [] else dom_node at block ts ∷ [])

  pub post_order_all : DomTreeNodes → List DomTreeNode
  post_order_all no_nodes = []
  post_order_all (and_node t ts) = post_order t ++ post_order_all ts

-- What a stack of trees leaves on top of a result.
abbrev finish : List DomTreeNode → List DomTreeNode → List DomTreeNode
finish [] result = result
finish (t ∷ ts) result = finish ts (post_order t ++ result)

abbrev total : List DomTreeNode → ℕ
total [] = 0
total (t ∷ ts) = size t + total ts

finish-push_all :
    (ts : DomTreeNodes) (ps result : List DomTreeNode)
    → finish (push_all ts ps) result ≡ finish ps (post_order_all ts ++ result)
unfolding push_all post_order
finish-push_all no_nodes ps result = refl
finish-push_all (and_node t ts) ps result =
    finish-push_all ts (t ∷ ps) result
    ∙ ap (finish ps) (sym (append_assoc (post_order t) (post_order_all ts) result))

total-push_all :
    (ts : DomTreeNodes) (ps : List DomTreeNode) → total (push_all ts ps) ≡ size_all ts + total ps
unfolding push_all size
total-push_all no_nodes ps = omega arith
total-push_all (and_node t ts) ps = omega (arith, total-push_all ts (t ∷ ps))

traverse_lem :
    (fuel : ℕ) (ps result : List DomTreeNode)
    → total ps < fuel
    → traverse fuel ps result ≡ ok (finish ps result)
unfolding traverse size post_order
traverse_lem zero ps result h = absurd (omega arith)
traverse_lem (suc fuel) [] result h = refl
traverse_lem (suc fuel) (dom_node at block ts ∷ ps) result h =
    traverse_lem fuel (push_all ts ps) kept (omega (arith, total-push_all ts ps))
    ∙ ap ok (finish-push_all ts ps kept ∙ ap (finish ps) (regroup (block == nullptr)))
  where
    here : DomTreeNode
    here = dom_node at block ts

    kept : List DomTreeNode
    kept = if block == nullptr then result else here ∷ result

    regroup :
        (b : Bool)
        → post_order_all ts ++ (if b then result else here ∷ result)
          ≡ (post_order_all ts ++ (if b then [] else here ∷ [])) ++ result
    regroup true = sym (append_assoc (post_order_all ts) [] result)
    regroup false = sym (append_assoc (post_order_all ts) (here ∷ []) result)

-- `getBottomUpTraversal` returns within as many rounds as the tree has nodes, and its stack has the
-- nodes with a block in post-order from its top, so that each stands above its parent.
pub get_bottom_up_traversal_lem :
    (pdt : PostDominatorTree) → get_bottom_up_traversal pdt ≡ ok (post_order pdt.root)
unfolding get_bottom_up_traversal
get_bottom_up_traversal_lem pdt =
    traverse_lem (suc (size pdt.root)) (pdt.root ∷ []) [] (omega arith)
    ∙ ap ok (append-nil (post_order pdt.root))
