-- ===== src/Dependence/Laws.antt =====
-- What the operations of `DependenceGraph` do to the nodes and edges.
use icsa_dswp.Prelude.{◌≡◌, refl, true, false, not, ◌&&◌, ◌||◌, none, some, [], ◌∷◌, arith, ◌==◌}
use icsa_dswp.Std.{Ptr}
use icsa_dswp.Std.PtrSet.{PtrSet, insert, erase, contains-insert, contains-erase}
use icsa_dswp.Std.PtrMap
use icsa_dswp.Std.PtrMap.{PtrMap, find-assign, find-erase, find-touch}
use icsa_dswp.Outcome.{ok, err, out_of_range}
use icsa_dswp.Dependence.{
  DependenceGraph, add_node, add_edge, erase_everywhere, remove_node, get_dependants, remove_edge,
  depends_on, has_node, dependants, has_edge,
}

pub has_node-add_node :
    (a : Ptr) (g : DependenceGraph) (n : Ptr) → has_node (add_node a g) n ≡ (a == n || has_node g n)
unfolding add_node
has_node-add_node a g n = ground (arith, find-touch a [] g.nodes n)

pub has_edge-add_node :
    (a : Ptr) (g : DependenceGraph) (x y : Ptr) → has_edge (add_node a g) x y ≡ has_edge g x y
unfolding add_node
has_edge-add_node a g x y = ground (arith, find-touch a [] g.nodes x)

pub has_node-add_edge :
    (a b : Ptr) (g : DependenceGraph) (n : Ptr)
    → has_node (add_edge a b g) n ≡ (a == n || has_node g n)
unfolding add_edge
has_node-add_edge a b g n = ground (arith, find-assign a (insert b (dependants g a)) g.nodes n)

pub has_edge-add_edge :
    (a b : Ptr) (g : DependenceGraph) (x y : Ptr)
    → has_edge (add_edge a b g) x y ≡ (a == x && b == y || has_edge g x y)
unfolding add_edge
has_edge-add_edge a b g x y = ground (
  arith,
  find-assign a (insert b (dependants g a)) g.nodes x,
  contains-insert b (dependants g a) y,
)

find-erase_everywhere :
    (v : Ptr) (m : PtrMap PtrSet) (n : Ptr)
    → PtrMap.find (erase_everywhere v m) n
      ≡ elim (PtrMap.find m n) [ none ↦ none | some s ↦ some (erase v s) ]
unfolding erase_everywhere PtrMap.find
find-erase_everywhere v [] n = refl
find-erase_everywhere v ((k, s) ∷ m) n = ground (arith, find-erase_everywhere v m n)

pub has_node-remove_node :
    (a : Ptr) (g : DependenceGraph) (n : Ptr)
    → has_node (remove_node a g) n ≡ (not (a == n) && has_node g n)
unfolding remove_node
has_node-remove_node a g n =
    ground (arith, find-erase a (erase_everywhere a g.nodes) n, find-erase_everywhere a g.nodes n)

pub has_edge-remove_node :
    (a : Ptr) (g : DependenceGraph) (x y : Ptr)
    → has_edge (remove_node a g) x y ≡ (not (a == x) && not (a == y) && has_edge g x y)
unfolding remove_node
has_edge-remove_node a g x y = ground (
  arith,
  find-erase a (erase_everywhere a g.nodes) x,
  find-erase_everywhere a g.nodes x,
  contains-erase a (dependants g x) y,
)

-- `removeEdge` throws exactly if its source is no node.
pub remove_edge_missing :
    (a b : Ptr) (g : DependenceGraph) → has_node g a ≡ false → remove_edge a b g ≡ err out_of_range
unfolding remove_edge
remove_edge_missing a b g h = ground arith

pub remove_edge_lem :
    (a b : Ptr) (g : DependenceGraph)
    → has_node g a ≡ true
    → (g' : DependenceGraph) × (remove_edge a b g ≡ ok g')
      × ((n : Ptr) → has_node g' n ≡ has_node g n)
      × ((x y : Ptr) → has_edge g' x y ≡ (not (a == x && b == y) && has_edge g x y))
unfolding remove_edge
remove_edge_lem a b g h = (
  record { nodes = PtrMap.assign a (erase b (dependants g a)) g.nodes },
  ground arith,
  λ n. ground (arith, find-assign a (erase b (dependants g a)) g.nodes n),
  λ x y. ground (
    arith,
    find-assign a (erase b (dependants g a)) g.nodes x,
    contains-erase b (dependants g a) y,
  ),
)

pub get_dependants_lem :
    (g : DependenceGraph) (a : Ptr) → has_node g a ≡ true → get_dependants g a ≡ ok (dependants g a)
unfolding get_dependants
get_dependants_lem g a h = ground arith

-- `dependsOn` answers whether the edge is there. It also makes its first argument a node of the
-- graph if it is none, and leaves the other nodes and all edges.
pub depends_on_lem :
    (a b : Ptr) (g : DependenceGraph)
    → ((depends_on a b g).1 ≡ has_edge g a b)
      × ((n : Ptr) → has_node (depends_on a b g).0 n ≡ (a == n || has_node g n))
      × ((x y : Ptr) → has_edge (depends_on a b g).0 x y ≡ has_edge g x y)
unfolding depends_on
depends_on_lem a b g = (
  ground (arith, find-touch a [] g.nodes a),
  λ n. ground (arith, find-touch a [] g.nodes n),
  λ x y. ground (arith, find-touch a [] g.nodes x),
)

-- Only nodes have dependants.
pub edge_source : (g : DependenceGraph) (x y : Ptr) → has_edge g x y ≡ true → has_node g x ≡ true
edge_source g x y e = ground arith
