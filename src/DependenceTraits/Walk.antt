-- ===== src/DependenceTraits/Walk.antt =====
-- Walks over a wrapped graph with its iterators.
use icsa_dswp.Prelude.{
  ℕ, zero, suc, ◌≡◌, refl, true, none, some, List, [], ◌∷◌, arith, ==_iff, if◌then◌else◌, contains,
  length,
}
use icsa_dswp.Std.{Ptr}
use icsa_dswp.Std.PtrSet
use icsa_dswp.Std.PtrSet.{PtrSet}
use icsa_dswp.Std.PtrMap
use icsa_dswp.Std.PtrMap.{PtrMap}
use icsa_dswp.Std.Cursor
use icsa_dswp.Std.Cursor.{Cursor, contains-Above}
use icsa_dswp.Outcome.{Outcome, ok, err, bad_dereference, out_of_fuel, ◌>>=◌}
use icsa_dswp.DependenceTraits.{Node, Wrapper, nodes_end, child_begin, child_end, get_value}
use icsa_dswp.DependenceTraits.NodeIterator
use icsa_dswp.DependenceTraits.ChildIterator

-- `for (I = child_begin(N); I != child_end(N); ++I)`, as a user of the traits writes it, which
-- collects the values of the children. The first number bounds the rounds.
unfoldable pub read_children : ℕ → Node → Cursor → Wrapper → Outcome (Wrapper × List Ptr)
unfolding ChildIterator.differs ChildIterator.dereference ChildIterator.pre_increment
read_children zero n x w =
    if ChildIterator.differs x (child_end n) then err out_of_fuel else ok (w, [])
read_children (suc fuel) n x w =
    let round = (do
      (w₁, child) ← ChildIterator.dereference w x
      value ← get_value child
      y ← ChildIterator.pre_increment n x
      (w₂, values) ← read_children fuel n y w₁
      ok (w₂, value ∷ values)) in
    if ChildIterator.differs x (child_end n) then round else ok (w, [])

-- the same for the nodes, each with its children
unfoldable pub read_nodes : ℕ → Cursor → Wrapper → Outcome (Wrapper × List (Ptr × List Ptr))
unfolding NodeIterator.differs NodeIterator.dereference NodeIterator.pre_increment read_children
read_nodes zero x w = if NodeIterator.differs x (nodes_end w) then err out_of_fuel else ok (w, [])
read_nodes (suc fuel) x w =
    let round = (do
      node ← NodeIterator.dereference w x
      n ← elim node [ none ↦ err bad_dereference | some n ↦ ok n ]
      (w₁, values) ← read_children (length n.children) n (child_begin n) w
      y ← NodeIterator.pre_increment w₁ x
      (w₂, nodes) ← read_nodes fuel y w₁
      ok (w₂, (n.value, values) ∷ nodes)) in
    if NodeIterator.differs x (nodes_end w) then round else ok (w, [])

-- For a child that is a node the wrapper has a pointer to it.
abbrev pub HasNode : Wrapper → Ptr → Type 0
HasNode w k =
    (c : Node) × (PtrMap.touch k none w.nodes ≡ w.nodes)
    × (PtrMap.get_or w.nodes k none ≡ some c)
    × (c.value ≡ k)

pub read_children_lem :
    (n : Node) (w : Wrapper) (s : PtrSet)
    → PtrSet.IsAscending s
    → ((k : Ptr) → contains s k ≡ true → Cursor.next n.children (some k) ≡ Cursor.next s (some k))
    → ((k : Ptr) → contains s k ≡ true → HasNode w k)
    → read_children (length s) n (Cursor.first s) w ≡ ok (w, s)
unfolding read_children ChildIterator.pre_increment Cursor.next
read_children_lem n w [] asc tail nodes = refl
read_children_lem n w (j ∷ s) asc tail nodes =
    let (c, there, found, same) = nodes j (ground (arith, ==_iff j j)) in
    let steps : Cursor.next n.children (some j) ≡ ok (Cursor.first s) =
      ground (arith, tail j, ==_iff j j) in
    let ih =
      read_children_lem n w s asc.1
        (λ k h. ground (arith, tail k, h, ==_iff j k, contains-Above j s k asc.0))
        (λ k h. nodes k (ground (arith, h))) in
    rw (there, found, same) (rw steps (rw ih refl))
