-- ===== src/Dependence.antt =====
-- pass/include/Dependence.h: `DependenceGraph<ValueType>`, a map from each node to the set of the
-- nodes that depend on it. Nodes are referred to by their addresses.
pub mod Laws
pub mod Order
pub mod Adds
pub mod Refinement
use icsa_dswp.Prelude.{ℕ, Bool, true, false, none, some, List, [], ◌∷◌, contains, ◌≡◌}
use icsa_dswp.Std.{Ptr}
use icsa_dswp.Std.PtrSet.{PtrSet, insert, erase}
use icsa_dswp.Std.PtrMap
use icsa_dswp.Std.PtrMap.{PtrMap}
use icsa_dswp.Outcome.{Outcome, ok, err, out_of_range, ◌>>=◌}

pub record DependenceGraph : Type 0 where
  pub nodes : PtrMap PtrSet

abbrev pub empty : DependenceGraph
empty = record { nodes = [] }

-- `Nodes[Value];`
unfoldable pub add_node : Ptr → DependenceGraph → DependenceGraph
unfolding PtrMap.touch
add_node value g = record { nodes = PtrMap.touch value [] g.nodes }

-- `Nodes[From].insert(To);`
unfoldable pub add_edge : Ptr → Ptr → DependenceGraph → DependenceGraph
unfolding PtrMap.assign PtrMap.find insert
add_edge from to g = record {
  nodes = PtrMap.assign from (insert to (PtrMap.get_or g.nodes from [])) g.nodes;
}

-- the loop of `removeNode`
unfoldable pub erase_everywhere : Ptr → PtrMap PtrSet → PtrMap PtrSet
unfolding erase
erase_everywhere value [] = []
erase_everywhere value ((k, s) ∷ m) = (k, erase value s) ∷ erase_everywhere value m

unfoldable pub remove_node : Ptr → DependenceGraph → DependenceGraph
unfolding erase_everywhere PtrMap.erase
remove_node value g = record { nodes = PtrMap.erase value (erase_everywhere value g.nodes) }

-- `Nodes.at(A)`, which throws if there is no node A; `child_begin` to `child_end` run through it.
unfoldable pub get_dependants : DependenceGraph → Ptr → Outcome PtrSet
unfolding PtrMap.find
get_dependants g a = elim (PtrMap.find g.nodes a) [ none ↦ err out_of_range | some s ↦ ok s ]

unfoldable pub remove_edge : Ptr → Ptr → DependenceGraph → Outcome DependenceGraph
unfolding get_dependants PtrMap.assign erase
remove_edge from to g = do
  s ← get_dependants g from
  ok (record { nodes = PtrMap.assign from (erase to s) g.nodes })

-- `Nodes[A].find(B) != Nodes[A].end()`. The operator `[]` inserts a missing node A.
unfoldable pub depends_on : Ptr → Ptr → DependenceGraph → DependenceGraph × Bool
unfolding PtrMap.touch PtrMap.find
depends_on a b g =
    let nodes' = PtrMap.touch a [] g.nodes in
    (record { nodes = nodes' }, contains (PtrMap.get_or nodes' a []) b)

unfoldable pub clear : DependenceGraph → DependenceGraph
clear g = record { nodes = [] }

-- The graph as a relation: which addresses are nodes, and which nodes depend on which.
abbrev pub has_node : DependenceGraph → Ptr → Bool
has_node g n = PtrMap.has_key g.nodes n

abbrev pub dependants : DependenceGraph → Ptr → PtrSet
dependants g n = PtrMap.get_or g.nodes n []

abbrev pub has_edge : DependenceGraph → Ptr → Ptr → Bool
has_edge g a b = contains (dependants g a) b

-- Every dependant is itself a node, so that `getDependants` can be called on it.
abbrev pub IsClosed : DependenceGraph → Type 0
IsClosed g = (a b : Ptr) → has_edge g a b ≡ true → has_node g b ≡ true
