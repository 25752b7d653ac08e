-- ===== src/GraphUtils.antt =====
-- pass/include/GraphUtils.h: the transpose of a dependence graph, the strongly connected components
-- by the algorithm of Kosaraju, and a topological sort.
pub mod Walk
pub mod Lists
pub mod PostOrder
pub mod Component
pub mod Transpose
pub mod Kosaraju
pub mod Topsort
use icsa_dswp.Prelude.{
  ℕ, zero, suc, Bool, true, false, List, [], ◌∷◌, ◌++◌, length, ◌==◌, if◌then◌else◌, not,
}
use icsa_dswp.Std.{Ptr, nullptr}
use icsa_dswp.Std.PtrSet.{PtrSet}
use icsa_dswp.Std.PtrMap
use icsa_dswp.Std.PtrMap.{PtrMap}
use icsa_dswp.Outcome.{Outcome, ok, err, out_of_fuel, ◌>>=◌, for_each}
use icsa_dswp.Dependence.{DependenceGraph, empty, add_node, add_edge, remove_edge, get_dependants}

-- the loop of `createVisited`
unfoldable pub create_visited_from : PtrMap PtrSet → PtrMap Bool → PtrMap Bool
unfolding PtrMap.assign
create_visited_from [] visited = visited
create_visited_from ((n, s) ∷ m) visited = create_visited_from m (PtrMap.assign n false visited)

unfoldable pub create_visited : DependenceGraph → PtrMap Bool
unfolding create_visited_from
create_visited g = create_visited_from g.nodes []

-- the loop of `createComponent`
unfoldable pub create_component_from : PtrMap PtrSet → PtrMap Ptr → PtrMap Ptr
unfolding PtrMap.assign
create_component_from [] component = component
create_component_from ((n, s) ∷ m) component =
    create_component_from m (PtrMap.assign n nullptr component)

unfoldable pub create_component : DependenceGraph → PtrMap Ptr
unfolding create_component_from
create_component g = create_component_from g.nodes []

-- The arguments that `postOrderEnumerate` takes by reference.
pub record Enumeration : Type 0 where
  pub visited : PtrMap Bool
  pub result : List Ptr

abbrev pub flag : Enumeration → Ptr → Bool
flag e n = PtrMap.get_or e.visited n false

abbrev pub mark : Ptr → Enumeration → Enumeration
mark u e = record e { visited = PtrMap.assign u true e.visited }

abbrev pub prepend : Ptr → Enumeration → Enumeration
prepend u e = record e { result = u ∷ e.result }

-- A missing key reads as `false` and is inserted by `visited[u]`, right before it is set.
unfoldable pub post_order_enumerate : DependenceGraph → ℕ → Ptr → Enumeration → Outcome Enumeration
unfolding get_dependants for_each PtrMap.assign
post_order_enumerate g zero u e = err out_of_fuel
post_order_enumerate g (suc fuel) u e = elim (flag e u) [
  | true ↦ ok e
  | false ↦ do
    deps ← get_dependants g u
    e' ← for_each (post_order_enumerate g fuel) deps (mark u e)
    ok (prepend u e')
]

-- `component[u]`, which is `nullptr` where the key is missing
abbrev pub root_of : PtrMap Ptr → Ptr → Ptr
root_of component u = PtrMap.get_or component u nullptr

-- `component[u] != nullptr`
abbrev pub taken : PtrMap Ptr → Ptr → Bool
taken component u = not (root_of component u == nullptr)

unfoldable pub assign_component :
    DependenceGraph → ℕ → Ptr → Ptr → PtrMap Ptr → Outcome (PtrMap Ptr)
unfolding get_dependants for_each PtrMap.assign
assign_component g zero root u component = err out_of_fuel
assign_component g (suc fuel) root u component = elim (root_of component u == nullptr) [
  | true ↦ do
    deps ← get_dependants g u
    for_each (assign_component g fuel root) deps (PtrMap.assign u root component)
  | false ↦ ok component
]

-- the first loop of `transpose`
unfoldable pub add_nodes : PtrMap PtrSet → DependenceGraph → DependenceGraph
unfolding add_node
add_nodes [] result = result
add_nodes ((n, s) ∷ m) result = add_nodes m (add_node n result)

-- the inner and the outer loop of the second one
unfoldable pub reverse_edges_from : Ptr → PtrSet → DependenceGraph → DependenceGraph
unfolding add_edge
reverse_edges_from n [] result = result
reverse_edges_from n (j ∷ s) result = reverse_edges_from n s (add_edge j n result)

unfoldable pub reverse_edges : PtrMap PtrSet → DependenceGraph → DependenceGraph
unfolding reverse_edges_from
reverse_edges [] result = result
reverse_edges ((n, s) ∷ m) result = reverse_edges m (reverse_edges_from n s result)

unfoldable pub transpose : DependenceGraph → DependenceGraph
unfolding add_nodes reverse_edges
transpose g = reverse_edges g.nodes (add_nodes g.nodes empty)

-- More nested calls than nodes are never needed: each one marks a node before it calls.
abbrev pub depth_bound : DependenceGraph → ℕ
depth_bound g = suc (length g.nodes)

unfoldable pub enumerate_all : DependenceGraph → List Ptr → Outcome Enumeration
unfolding create_visited post_order_enumerate
enumerate_all g order =
    for_each (post_order_enumerate g (depth_bound g)) order
      (record { visited = create_visited g; result = [] })

unfoldable pub assign_all : DependenceGraph → DependenceGraph → List Ptr → Outcome (PtrMap Ptr)
unfolding create_component assign_component
assign_all g transposed order =
    for_each (λ u. assign_component transposed (depth_bound transposed) u u) order
      (create_component g)

unfoldable pub find_scc : DependenceGraph → Outcome (PtrMap Ptr)
unfolding transpose enumerate_all assign_all
find_scc g =
    let transposed = transpose g in
    do e ← enumerate_all g (PtrMap.keys transposed.nodes); assign_all g transposed e.result

-- The variables of `topsort` that its loop changes.
pub record Sort : Type 0 where
  pub gt : DependenceGraph
  pub frontier : List Ptr
  pub result : List Ptr

abbrev pub is_empty : PtrSet → Bool
is_empty [] = true
is_empty (x ∷ s) = false

-- the first loop of `topsort`: the nodes without dependants, in the order of their addresses
unfoldable pub sources : PtrMap PtrSet → List Ptr
sources [] = []
sources ((n, s) ∷ m) = let rest = sources m in if is_empty s then n ∷ rest else rest

-- the inner loop's body, for the node `m` that depends on `n`
unfoldable pub release_edge : (n m : Ptr) → Sort → Outcome Sort
unfolding remove_edge get_dependants
release_edge n m st = do
  gt' ← remove_edge m n st.gt
  deps ← get_dependants gt' m
  ok (record st {
    gt = gt';
    frontier = if is_empty deps then st.frontier ++ (m ∷ []) else st.frontier;
  })

-- the second loop of `topsort`, one unit of fuel for each round
unfoldable pub drain : DependenceGraph → ℕ → Sort → Outcome (List Ptr)
unfolding get_dependants for_each release_edge
drain g zero st = err out_of_fuel
drain g (suc fuel) st = elim st.frontier [
  | [] ↦ ok st.result
  | n ∷ rest ↦ do
    deps ← get_dependants g n
    st' ←
        for_each (release_edge n) deps
          (record st { frontier = rest; result = st.result ++ (n ∷ []) })
    drain g fuel st'
]

unfoldable pub topsort : DependenceGraph → Outcome (List Ptr)
unfolding transpose sources drain
topsort g =
    let gt = transpose g in
    drain g (depth_bound g) (record { gt = gt; frontier = sources gt.nodes; result = [] })
