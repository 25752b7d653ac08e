-- ===== src/GraphUtils/Transpose.antt =====
-- `transpose`: the same nodes, and each edge reversed.
use icsa_dswp.Prelude.{
  ◌≡◌, refl, sym, ◌∙◌, Bool, true, false, ◌&&◌, ◌||◌, inl, inr, [], ◌∷◌, arith, ◌==◌, Bool-cases,
  contains, not_both,
}
use icsa_dswp.Std.{Ptr}
use icsa_dswp.Std.PtrSet.{PtrSet}
use icsa_dswp.Std.PtrMap
use icsa_dswp.Std.PtrMap.{PtrMap}
use icsa_dswp.Dependence.{DependenceGraph, empty, add_node, add_edge, has_node, has_edge, IsClosed}
use icsa_dswp.Dependence.Laws.{
  has_node-add_node, has_edge-add_node, has_node-add_edge, has_edge-add_edge, edge_source,
}
use icsa_dswp.Dependence.Order.{IsOrdered, add_node-IsOrdered, add_edge-IsOrdered, empty-IsOrdered}
use icsa_dswp.GraphUtils.{add_nodes, reverse_edges_from, reverse_edges, transpose}
use icsa_dswp.GraphUtils.Walk.{Walk, here, step, Walk-cons}

-- Some entry of the map has the edge.
abbrev pub edge_in : PtrMap PtrSet → Ptr → Ptr → Bool
edge_in [] x y = false
edge_in ((k, s) ∷ m) x y = k == x && contains s y || edge_in m x y

-- Some entry of the map has an edge to the node.
abbrev target_in : PtrMap PtrSet → Ptr → Bool
target_in [] y = false
target_in ((k, s) ∷ m) y = contains s y || target_in m y

edge_in-Above : (k : Ptr) (m : PtrMap PtrSet) (y : Ptr) → PtrMap.Above k m → edge_in m k y ≡ false
edge_in-Above k [] y a = refl
edge_in-Above k ((j, s) ∷ m) y a = ground (arith, edge_in-Above k m y)

-- With unique keys the entries have the edges that the lookups show.
pub edge_in-find :
    (m : PtrMap PtrSet) (x y : Ptr)
    → PtrMap.IsAscending m
    → edge_in m x y ≡ contains (PtrMap.get_or m x []) y
unfolding PtrMap.find
edge_in-find [] x y a = refl
edge_in-find ((k, s) ∷ m) x y a = ground (arith, edge_in-find m x y a.1, edge_in-Above k m y a.0)

target_in-edge :
    (m : PtrMap PtrSet) (y : Ptr) → target_in m y ≡ true → (x : Ptr) × (edge_in m x y ≡ true)
target_in-edge [] y h = absurd (not_both h refl)
target_in-edge ((k, s) ∷ m) y h = elim (Bool-cases (contains s y)) [
  | inl now ↦ (k, ground arith)
  | inr later ↦ let (x, e) = target_in-edge m y (ground arith) in (x, ground arith)
]

pub has_node-add_nodes :
    (m : PtrMap PtrSet) (r : DependenceGraph) (n : Ptr)
    → has_node (add_nodes m r) n ≡ (has_node r n || contains (PtrMap.keys m) n)
unfolding add_nodes
has_node-add_nodes [] r n = ground arith
has_node-add_nodes ((k, s) ∷ m) r n =
    ground (arith, has_node-add_nodes m (add_node k r) n, has_node-add_node k r n)

pub has_edge-add_nodes :
    (m : PtrMap PtrSet) (r : DependenceGraph) (x y : Ptr)
    → has_edge (add_nodes m r) x y ≡ has_edge r x y
unfolding add_nodes
has_edge-add_nodes [] r x y = refl
has_edge-add_nodes ((k, s) ∷ m) r x y =
    has_edge-add_nodes m (add_node k r) x y ∙ has_edge-add_node k r x y

has_node-reverse_edges_from :
    (k : Ptr) (s : PtrSet) (r : DependenceGraph) (n : Ptr)
    → has_node (reverse_edges_from k s r) n ≡ (has_node r n || contains s n)
unfolding reverse_edges_from
has_node-reverse_edges_from k [] r n = ground arith
has_node-reverse_edges_from k (j ∷ s) r n =
    ground (arith, has_node-reverse_edges_from k s (add_edge j k r) n, has_node-add_edge j k r n)

has_edge-reverse_edges_from :
    (k : Ptr) (s : PtrSet) (r : DependenceGraph) (x y : Ptr)
    → has_edge (reverse_edges_from k s r) x y ≡ (has_edge r x y || contains s x && k == y)
unfolding reverse_edges_from
has_edge-reverse_edges_from k [] r x y = ground arith
has_edge-reverse_edges_from k (j ∷ s) r x y =
    ground
      (arith, has_edge-reverse_edges_from k s (add_edge j k r) x y, has_edge-add_edge j k r x y)

has_node-reverse_edges :
    (m : PtrMap PtrSet) (r : DependenceGraph) (n : Ptr)
    → has_node (reverse_edges m r) n ≡ (has_node r n || target_in m n)
unfolding reverse_edges
has_node-reverse_edges [] r n = ground arith
has_node-reverse_edges ((k, s) ∷ m) r n = ground (
  arith,
  has_node-reverse_edges m (reverse_edges_from k s r) n,
  has_node-reverse_edges_from k s r n,
)

pub has_edge-reverse_edges :
    (m : PtrMap PtrSet) (r : DependenceGraph) (x y : Ptr)
    → has_edge (reverse_edges m r) x y ≡ (has_edge r x y || edge_in m y x)
unfolding reverse_edges
has_edge-reverse_edges [] r x y = ground arith
has_edge-reverse_edges ((k, s) ∷ m) r x y = ground (
  arith,
  has_edge-reverse_edges m (reverse_edges_from k s r) x y,
  has_edge-reverse_edges_from k s r x y,
)

add_nodes-IsOrdered :
    (m : PtrMap PtrSet) (r : DependenceGraph) → IsOrdered r → IsOrdered (add_nodes m r)
unfolding add_nodes
add_nodes-IsOrdered [] r h = h
add_nodes-IsOrdered ((k, s) ∷ m) r h =
    add_nodes-IsOrdered m (add_node k r) (add_node-IsOrdered k r h)

reverse_edges_from-IsOrdered :
    (k : Ptr) (s : PtrSet) (r : DependenceGraph)
    → IsOrdered r
    → IsOrdered (reverse_edges_from k s r)
unfolding reverse_edges_from
reverse_edges_from-IsOrdered k [] r h = h
reverse_edges_from-IsOrdered k (j ∷ s) r h =
    reverse_edges_from-IsOrdered k s (add_edge j k r) (add_edge-IsOrdered j k r h)

reverse_edges-IsOrdered :
    (m : PtrMap PtrSet) (r : DependenceGraph) → IsOrdered r → IsOrdered (reverse_edges m r)
unfolding reverse_edges
reverse_edges-IsOrdered [] r h = h
reverse_edges-IsOrdered ((k, s) ∷ m) r h =
    reverse_edges-IsOrdered m (reverse_edges_from k s r) (reverse_edges_from-IsOrdered k s r h)

pub transpose-IsOrdered : (g : DependenceGraph) → IsOrdered (transpose g)
unfolding transpose
transpose-IsOrdered g =
    reverse_edges-IsOrdered g.nodes (add_nodes g.nodes empty)
      (add_nodes-IsOrdered g.nodes empty empty-IsOrdered)

module _ (g : DependenceGraph) (ordered : IsOrdered g) where
  pub has_edge-transpose : (x y : Ptr) → has_edge (transpose g) x y ≡ has_edge g y x
  unfolding transpose
  has_edge-transpose x y = ground (
    arith,
    has_edge-reverse_edges g.nodes (add_nodes g.nodes empty) x y,
    has_edge-add_nodes g.nodes empty x y,
    edge_in-find g.nodes y x ordered.keys,
  )

  target-IsClosed : IsClosed g → (n : Ptr) → target_in g.nodes n ≡ true → has_node g n ≡ true
  target-IsClosed closed n h =
      let (x, e) = target_in-edge g.nodes n h in
      closed x n (sym (edge_in-find g.nodes x n ordered.keys) ∙ e)

  pub has_node-transpose : IsClosed g → (n : Ptr) → has_node (transpose g) n ≡ has_node g n
  unfolding transpose
  has_node-transpose closed n = ground (
    arith,
    has_node-reverse_edges g.nodes (add_nodes g.nodes empty) n,
    has_node-add_nodes g.nodes empty n,
    PtrMap.contains-keys g.nodes n,
    target-IsClosed closed n,
  )

  pub transpose-IsClosed : IsClosed g → IsClosed (transpose g)
  transpose-IsClosed closed x y e =
      has_node-transpose closed y ∙ edge_source g y x (sym (has_edge-transpose x y) ∙ e)

  -- Walks turn round.
  pub Walk-transpose :
      (blocked : Ptr → Bool) {a b : Ptr} → Walk g blocked a b → Walk (transpose g) blocked b a
  Walk-transpose blocked (here h) = here h
  Walk-transpose blocked (step w e h) =
      Walk-cons (has_edge-transpose _ _ ∙ e) h (Walk-transpose blocked w)

  pub Walk-of_transpose :
      (blocked : Ptr → Bool) {a b : Ptr} → Walk (transpose g) blocked a b → Walk g blocked b a
  Walk-of_transpose blocked (here h) = here h
  Walk-of_transpose blocked (step {b} {c} w e h) =
      Walk-cons (sym (has_edge-transpose b c) ∙ e) h (Walk-of_transpose blocked w)

  -- On a well-formed graph with closed edges, the transpose has the same nodes and exactly the
  -- reversed edges, and is again well-formed with closed edges.
  pub transpose_lem :
      IsClosed g
      → ((n : Ptr) → has_node (transpose g) n ≡ has_node g n)
        × ((x y : Ptr) → has_edge (transpose g) x y ≡ has_edge g y x)
        × IsOrdered (transpose g)
        × IsClosed (transpose g)
  transpose_lem closed = (
    has_node-transpose closed,
    has_edge-transpose,
    transpose-IsOrdered g,
    transpose-IsClosed closed,
  )
