-- ===== src/DependenceTraits/ReadBack.antt =====
-- A walk over a wrapped graph with its iterators meets exactly the graph.
use icsa_dswp.Prelude.{
  ◌≡◌, refl, subst, true, false, none, some, [], ◌∷◌, arith, ◌==◌, ==_iff, inl, inr, Bool-cases,
  contains, length,
}
use icsa_dswp.Std.{Ptr}
use icsa_dswp.Std.PtrSet.{PtrSet}
use icsa_dswp.Std.PtrMap
use icsa_dswp.Std.PtrMap.{PtrMap}
use icsa_dswp.Std.Cursor
use icsa_dswp.Std.Cursor.{Cursor, contains-Above}
use icsa_dswp.Outcome.{ok}
use icsa_dswp.Dependence.{DependenceGraph, IsClosed}
use icsa_dswp.Dependence.Order.{IsOrdered, SetsAscending}
use icsa_dswp.DependenceTraits.{Wrapper, wrap, nodes_begin}
use icsa_dswp.DependenceTraits.NodeIterator
use icsa_dswp.DependenceTraits.Walk.{read_children_lem, read_nodes}
use icsa_dswp.DependenceTraits.Wrapped.{
  node_of, wrapped, keys-wrapped, find-wrapped, wrap_lem, wrapped-HasNode,
}

-- A key of the rest of a map is not the key in front.
apart :
    (k : Ptr) (m : PtrMap PtrSet) (j : Ptr)
    → PtrMap.Above k m
    → PtrMap.has_key m j ≡ true
    → (k == j) ≡ false
unfolding PtrMap.find
apart k m j above there = elim (Bool-cases (k == j)) [
  | inl same ↦ absurd (
      ground (
        arith,
        there,
        subst (λ i. PtrMap.find m i ≡ none) ((==_iff k j).0 same) (PtrMap.find-Above k m above),
      ))
  | inr other ↦ other
]

module _ (g : DependenceGraph) (ordered : IsOrdered g) (closed : IsClosed g) where
  abbrev whole : Wrapper
  whole = record { nodes = wrapped g.nodes }

  read_nodes_lem :
      (m : PtrMap PtrSet)
      → PtrMap.IsAscending m
      → SetsAscending m
      → ((k : Ptr)
          → contains (PtrMap.keys m) k ≡ true
          → Cursor.next (PtrMap.keys g.nodes) (some k) ≡ Cursor.next (PtrMap.keys m) (some k))
      → ((k : Ptr) (s : PtrSet) → PtrMap.find m k ≡ some s → PtrMap.find g.nodes k ≡ some s)
      → read_nodes (length m) (Cursor.first (PtrMap.keys m)) whole ≡ ok (whole, m)
  unfolding read_nodes NodeIterator.dereference NodeIterator.pre_increment Cursor.next PtrMap.find
  read_nodes_lem [] asc sets tail inside = refl
  read_nodes_lem ((k, s) ∷ m) asc sets tail inside =
      let found = inside k s (ground (arith, ==_iff k k)) in
      let there = find-wrapped g.nodes k s found in
      let steps : Cursor.next (PtrMap.keys (wrapped g.nodes)) (some k)
          ≡ ok (Cursor.first (PtrMap.keys m)) =
        rw (keys-wrapped g.nodes) (ground (arith, tail k, ==_iff k k)) in
      let children =
        read_children_lem (record { value = k; children = s }) whole s sets.0 (λ j h. refl)
          (λ j h. wrapped-HasNode g ordered j (closed k j (ground (arith, found, h)))) in
      let ih =
        read_nodes_lem m asc.1 sets.1
          (λ j h. ground (arith, tail j, h, apart k m j asc.0, PtrMap.contains-keys m j))
          (λ j t h. ground (arith, inside j t, h, apart k m j asc.0)) in
      rw (NodeIterator.dereference, there)
        (rw children (rw (NodeIterator.pre_increment, steps) (rw ih refl)))

  -- For a well-formed graph whose dependants are all nodes, a walk over its wrapper that starts at
  -- `nodes_begin` and `child_begin` and compares with `nodes_end` and `child_end` reads no null
  -- pointer, moves past no end, leaves the wrapper as it was, and meets exactly the nodes of the
  -- graph and the dependants of each, in order.
  pub read_nodes-wrap :
      read_nodes (length g.nodes) (nodes_begin (wrap g)) (wrap g) ≡ ok (wrap g, g.nodes)
  read_nodes-wrap =
      rw (wrap_lem g ordered, keys-wrapped g.nodes)
        (read_nodes_lem g.nodes ordered.keys ordered.sets (λ k h. refl) (λ k s h. h))

-- What `nodes_begin` of a wrapped graph leads to.
pub first_wrapped :
    (g : DependenceGraph) (k : Ptr) (s : PtrSet) (m : PtrMap PtrSet)
    → IsOrdered g
    → g.nodes ≡ (k, s) ∷ m
    → NodeIterator.dereference (wrap g) (nodes_begin (wrap g)) ≡ ok (node_of k s)
unfolding NodeIterator.dereference PtrMap.find
first_wrapped g k s m ordered e = rw (wrap_lem g ordered, e) (ground (arith, ==_iff k k))
