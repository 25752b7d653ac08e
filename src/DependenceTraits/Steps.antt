-- ===== src/DependenceTraits/Steps.antt =====
-- The steps of the iterators, and a child that is no node.
use icsa_dswp.Prelude.{
  ◌≡◌, refl, ◌∙◌, not_both, subst, true, false, none, some, [], ◌∷◌, arith, ◌==◌, ==_iff, inl, inr,
  Bool-cases, contains,
}
use icsa_dswp.Std.{Ptr}
use icsa_dswp.Std.PtrSet
use icsa_dswp.Std.PtrSet.{PtrSet}
use icsa_dswp.Std.PtrMap
use icsa_dswp.Std.PtrMap.{PtrMap}
use icsa_dswp.Std.Cursor.{Cursor}
use icsa_dswp.Outcome.{ok}
use icsa_dswp.Dependence.{DependenceGraph, has_node}
use icsa_dswp.Dependence.Order.{IsOrdered}
use icsa_dswp.DependenceTraits.{Node, Wrapper, wrap, lookup}
use icsa_dswp.DependenceTraits.NodeIterator
use icsa_dswp.DependenceTraits.ChildIterator
use icsa_dswp.DependenceTraits.Wrapped.{wrapped, keys-wrapped, wrap_lem}
use icsa_dswp.Std.Cursor.{next_runs, previous-next}

-- On a well-formed wrapped graph `I++` at a node and then `I--` give back where the iterator stood,
-- and so do the steps at a child of a node whose children are in ascending order.
pub steps_lem :
    (g : DependenceGraph) (k : Ptr) (n : Node) (j : Ptr)
    → IsOrdered g
    → has_node g k ≡ true
    → PtrSet.IsAscending n.children
    → contains n.children j ≡ true
    → ((y : Cursor) × (NodeIterator.post_increment (wrap g) (some k) ≡ ok (some k, y))
        × (NodeIterator.post_decrement (wrap g) y ≡ ok (y, some k)))
      × ((y : Cursor) × (ChildIterator.post_increment n (some j) ≡ ok (some j, y))
          × (ChildIterator.post_decrement n y ≡ ok (y, some j)))
unfolding NodeIterator.post_increment NodeIterator.post_decrement ChildIterator.post_increment
    ChildIterator.post_decrement PtrMap.find
steps_lem g k n j ordered node asc child =
    let (y, e) = next_runs (PtrMap.keys g.nodes) k (PtrMap.contains-keys g.nodes k ∙ node) in
    let (z, e') = next_runs n.children j child in
    let back =
      previous-next (PtrMap.keys g.nodes) k y (PtrMap.IsAscending-keys g.nodes ordered.keys) e in
    let back' = previous-next n.children j z asc e' in
    (
      (
        y,
        rw (wrap_lem g ordered, keys-wrapped g.nodes) (rw (NodeIterator.pre_increment, e) refl),
        rw (wrap_lem g ordered, keys-wrapped g.nodes) (rw (NodeIterator.pre_decrement, back) refl),
      ),
      (z, rw (ChildIterator.pre_increment, e') refl, rw (ChildIterator.pre_decrement, back') refl),
    )

distinct_nodes :
    (g : DependenceGraph) (b a : Ptr)
    → has_node g b ≡ false
    → has_node g a ≡ true
    → (b == a) ≡ false
distinct_nodes g b a missing node = elim (Bool-cases (b == a)) [
  | inl same ↦
      absurd (not_both node (subst (λ i. has_node g i ≡ false) ((==_iff b a).0 same) missing))
  | inr other ↦ other
]

missing-wrapped :
    (m : PtrMap PtrSet) (k : Ptr) → PtrMap.has_key m k ≡ false → PtrMap.find (wrapped m) k ≡ none
unfolding PtrMap.find
missing-wrapped [] k h = refl
missing-wrapped ((j, s) ∷ m) k h = ground (arith, h, missing-wrapped m k)

-- A child that is no node of the wrapped graph is read as a null pointer, and from then on the walk
-- over the nodes meets a null pointer under it. A node of the graph is met as before.
pub dangling_lem :
    (g : DependenceGraph) (b a : Ptr)
    → IsOrdered g
    → has_node g b ≡ false
    → has_node g a ≡ true
    → (w : Wrapper) × (ChildIterator.dereference (wrap g) (some b) ≡ ok (w, none))
      × (NodeIterator.dereference w (some b) ≡ ok none)
      × (NodeIterator.dereference w (some a) ≡ NodeIterator.dereference (wrap g) (some a))
unfolding ChildIterator.dereference NodeIterator.dereference lookup PtrMap.find
dangling_lem g b a ordered missing node =
    let m = wrapped g.nodes in
    let absent = missing-wrapped g.nodes b missing in
    let touched = PtrMap.find-touch b none m in
    let value : PtrMap.get_or (PtrMap.touch b none m) b none ≡ none =
      ground (arith, touched b, absent, ==_iff b b) in
    let other = distinct_nodes g b a missing node in
    rw (wrap_lem g ordered) (
      record { nodes = PtrMap.touch b none m },
      rw value refl,
      ground (arith, touched b, absent, ==_iff b b),
      ground (arith, touched a, other),
    )
