-- ===== src/Cdg.antt =====
-- pass/src/CDG.cpp: the control dependence graph, from the post-dominance frontiers of the blocks.
-- LLVM's post-dominator tree and the predecessors of a block are arguments.
pub mod Traversal
pub mod Inserts
pub mod Frontier
pub mod Edges
pub mod Ancestors
pub mod Subtrees
pub mod Entering
pub mod Parents
pub mod Homes
pub mod Control
use icsa_dswp.Prelude.{ℕ, zero, suc, ◌+◌, true, false, List, [], ◌∷◌, ◌++◌, ◌==◌, if◌then◌else◌}
use icsa_dswp.Std.{Ptr, nullptr}
use icsa_dswp.Std.PtrSet.{PtrSet, insert}
use icsa_dswp.Std.PtrMap
use icsa_dswp.Std.PtrMap.{PtrMap}
use icsa_dswp.Outcome.{Outcome, ok, err, out_of_fuel, ◌>>=◌}
use icsa_dswp.Dependence.{DependenceGraph}
use icsa_dswp.GraphUtils.{add_nodes, reverse_edges}

-- LLVM's `DomTreeNode`: its address, its block, which is null for a virtual root, its children.
mutual
  pub data DomTreeNode : Type 0 where
    dom_node : (at block : Ptr) → DomTreeNodes → DomTreeNode

  pub data DomTreeNodes : Type 0 where
    no_nodes : DomTreeNodes
    and_node : DomTreeNode → DomTreeNodes → DomTreeNodes

abbrev pub node_at : DomTreeNode → Ptr
node_at (dom_node at block ts) = at

abbrev pub block_of : DomTreeNode → Ptr
block_of (dom_node at block ts) = block

abbrev pub children_of : DomTreeNode → DomTreeNodes
children_of (dom_node at block ts) = ts

-- LLVM's `PostDominatorTree` and CFG: the root, the address of `getNode(B)->getIDom()` for a block
-- B, which is null for the root, and the predecessors of a block.
pub record PostDominatorTree : Type 0 where
  pub root : DomTreeNode
  pub idom : Ptr → Ptr
  pub preds : Ptr → List Ptr

-- `parents.push(*it)` for each child
unfoldable pub push_all : DomTreeNodes → List DomTreeNode → List DomTreeNode
push_all no_nodes parents = parents
push_all (and_node t ts) parents = push_all ts (t ∷ parents)

-- The loop of `getBottomUpTraversal`; the tops of the stacks are the heads of the lists.
unfoldable pub traverse : ℕ → (parents result : List DomTreeNode) → Outcome (List DomTreeNode)
unfolding push_all
traverse zero parents result = err out_of_fuel
traverse (suc fuel) parents result = elim parents [
  | [] ↦ ok result
  | current ∷ rest ↦
      traverse fuel (push_all (children_of current) rest)
        (if block_of current == nullptr then result else current ∷ result)
]

-- the number of nodes
unfoldable mutual
  pub size : DomTreeNode → ℕ
  size (dom_node at block ts) = suc (size_all ts)

  pub size_all : DomTreeNodes → ℕ
  size_all no_nodes = 0
  size_all (and_node t ts) = size t + size_all ts

unfoldable pub get_bottom_up_traversal : PostDominatorTree → Outcome (List DomTreeNode)
unfolding traverse size
get_bottom_up_traversal pdt = traverse (suc (size pdt.root)) (pdt.root ∷ []) []

module _ (pdt : PostDominatorTree) where
  -- `if (pdt.getNode(*it)->getIDom() != current) result[currentBB].insert(*it)` for each block of
  -- a list
  unfoldable pub insert_blocks : (current block : Ptr) → List Ptr → PtrMap PtrSet → PtrMap PtrSet
  unfolding PtrMap.assign PtrMap.find insert
  insert_blocks current block [] result = result
  insert_blocks current block (b ∷ bs) result = insert_blocks current block bs (
      if pdt.idom b == current
      then result
      else PtrMap.assign block (insert b (PtrMap.get_or result block [])) result)

  -- the loop over the children, where `result[childBlock]` inserts a missing set
  unfoldable pub insert_children :
      (current block : Ptr) → DomTreeNodes → PtrMap PtrSet → PtrMap PtrSet
  unfolding insert_blocks PtrMap.touch
  insert_children current block no_nodes result = result
  insert_children current block (and_node t ts) result =
      let touched = PtrMap.touch (block_of t) [] result in
      insert_children current block ts
        (insert_blocks current block (PtrMap.get_or touched (block_of t) []) touched)

  -- the body of the loop of `getPostDomFrontier`
  unfoldable pub add_frontier : DomTreeNode → PtrMap PtrSet → PtrMap PtrSet
  unfolding insert_children
  add_frontier (dom_node current block ts) result =
      insert_children current block ts
        (insert_blocks current block (pdt.preds block) (PtrMap.touch block [] result))

  unfoldable pub add_frontiers : List DomTreeNode → PtrMap PtrSet → PtrMap PtrSet
  unfolding add_frontier
  add_frontiers [] result = result
  add_frontiers (t ∷ ts) result = add_frontiers ts (add_frontier t result)

  unfoldable pub get_post_dom_frontier : List DomTreeNode → PtrMap PtrSet
  unfolding add_frontiers
  get_post_dom_frontier bottom_up = add_frontiers bottom_up []

  -- `ControlDependenceGraphPass::runOnFunction`. Its last two loops are those of `transpose`.
  unfoldable pub run_on_function : DependenceGraph → Outcome DependenceGraph
  unfolding get_bottom_up_traversal get_post_dom_frontier add_nodes reverse_edges
  run_on_function cdg = do
    bottom_up ← get_bottom_up_traversal pdt
    let frontier = get_post_dom_frontier bottom_up
    ok (reverse_edges frontier (add_nodes frontier cdg))
