-- ===== src/GraphUtils/Topsort.antt =====
-- `topsort`: it returns, and lists each node after the nodes that it depends on.
pub mod Rounds
pub mod Sources
pub mod Acyclic
use icsa_dswp.Prelude.{
  ℕ, zero, suc, ◌<◌, ◌≡◌, refl, sym, ap, ◌∙◌, subst, Bool, true, false, not, ◌&&◌, ◌||◌, inl, inr,
  List, [], ◌∷◌, ◌++◌, arith, ◌==◌, ==_iff, if◌then◌else◌, Bool-cases, Bool-ext, contains,
  contains-append, IsUnique, not_both, length,
}
use icsa_dswp.Std.{Ptr, nullptr}
use icsa_dswp.Std.PtrSet
use icsa_dswp.Std.PtrSet.{PtrSet}
use icsa_dswp.Std.PtrMap
use icsa_dswp.Std.PtrMap.{PtrMap}
use icsa_dswp.Outcome.{Outcome, ok, ◌>>=◌, for_each}
use icsa_dswp.Dependence.{DependenceGraph, has_node, has_edge, dependants, IsClosed}
use icsa_dswp.Dependence.Laws.{get_dependants_lem, edge_source}
use icsa_dswp.Dependence.Order.{IsOrdered, SetsAscending-get_or}
use icsa_dswp.GraphUtils.{
  Sort, is_empty, sources, release_edge, drain, topsort, transpose, depth_bound,
}
use icsa_dswp.GraphUtils.Lists.{unmarked, unmarked_lt, unmarked-le-length, IsUnique-append}
use icsa_dswp.GraphUtils.Transpose.{has_edge-transpose, has_node-transpose, transpose-IsOrdered}
use icsa_dswp.GraphUtils.Kosaraju.Order.{length-keys}
use Sources.{sources-has_key, sources_lem, sources-IsUnique, set-IsUnique, unfilled}
use Rounds.{IsTopsorted, IsTopsorted-snoc, filled, Draining, release_edges_lem}

-- The list is a topological order of the nodes that no cycle reaches: each node comes after all
-- that it depends on, and a node that is left out depends on one that is left out.
pub record IsTopologicalOrder (g : DependenceGraph) (l : List Ptr) : Type 0 where
  pub unique : IsUnique l
  pub inside : (m : Ptr) → contains l m ≡ true → has_node g m ≡ true
  pub sorted : IsTopsorted g [] l
  pub left_out :
      (m : Ptr)
      → has_node g m ≡ true
      → contains l m ≡ false
      → (x : Ptr) × (has_edge g x m ≡ true) × (contains l x ≡ false)

module _ (g : DependenceGraph) (ordered : IsOrdered g) (closed : IsClosed g) where
  start-Draining :
      Draining g nullptr []
        (record { gt = transpose g; frontier = sources (transpose g).nodes; result = [] })
  start-Draining = record {
    edges = λ m x. ground (arith, has_edge-transpose g ordered m x);
    queued = λ m h. ground (
      arith,
      sources_lem (transpose g).nodes m (transpose-IsOrdered g).keys,
      has_node-transpose g ordered closed m,
    );
    nodes = has_node-transpose g ordered closed;
    fresh = λ m h. refl;
    unique_frontier = sources-IsUnique (transpose g).nodes (transpose-IsOrdered g).keys;
    unique_result = tt;
    frontier_nodes = λ m h.
        sym (has_node-transpose g ordered closed m) ∙ sources-has_key (transpose g).nodes m h;
    result_nodes = λ m h. cc;
    sorted = tt;
  }

  pop :
      (p n : Ptr) (rest : List Ptr) (gt : DependenceGraph) (result : List Ptr)
      → Draining g p [] (record { gt = gt; frontier = n ∷ rest; result = result })
      → Draining g n
          (dependants g n)
          (record { gt = gt; frontier = rest; result = result ++ (n ∷ []) })
  pop p n rest gt result d = record {
    edges = λ m x. ground (arith, d.edges m x, d.fresh n, contains-append result (n ∷ []) x);
    queued = λ m h. ground (arith, d.queued m h, contains-append result (n ∷ []) m);
    nodes = d.nodes;
    fresh =
        λ m h. ground (arith, d.fresh m, d.unique_frontier.0, contains-append result (n ∷ []) m);
    unique_frontier = d.unique_frontier.1;
    unique_result =
        IsUnique-append result (n ∷ []) d.unique_result (refl, tt)
          (λ k h. ground (arith, d.fresh n, h));
    frontier_nodes = λ m h. d.frontier_nodes m (ground arith);
    result_nodes = λ m h.
        ground (arith, d.result_nodes m, d.frontier_nodes n, contains-append result (n ∷ []) m);
    sorted = IsTopsorted-snoc g [] result n d.sorted (λ x e. ground (
      arith,
      d.edges n x,
      e,
      unfilled (dependants gt n) x (d.queued n (d.frontier_nodes n (ground arith)) ∙ ground arith),
    ));
  }

  fewer :
      (n : Ptr) (result : List Ptr) (fuel : ℕ)
      → has_node g n ≡ true
      → contains result n ≡ false
      → unmarked (contains result) (PtrMap.keys g.nodes) < suc fuel
      → unmarked (contains (result ++ (n ∷ []))) (PtrMap.keys g.nodes) < fuel
  fewer n result fuel node new h =
      let less =
        unmarked_lt (contains result) (contains (result ++ (n ∷ []))) (PtrMap.keys g.nodes) n
          (λ k m. ground (arith, contains-append result (n ∷ []) k))
          (PtrMap.contains-keys g.nodes n ∙ node) new
          (ground (arith, contains-append result (n ∷ []) n)) in
      omega (arith, less)

  abbrev Drained : Outcome (List Ptr) → Type 0
  Drained o =
      (l : List Ptr) × (n : Ptr) × (gt : DependenceGraph) × (o ≡ ok l)
      × Draining g n [] (record { gt = gt; frontier = []; result = l })

  drain_lem :
      (fuel : ℕ) (p : Ptr) (frontier : List Ptr) (gt : DependenceGraph) (result : List Ptr)
      → Draining g p [] (record { gt = gt; frontier = frontier; result = result })
      → unmarked (contains result) (PtrMap.keys g.nodes) < fuel
      → Drained (drain g fuel (record { gt = gt; frontier = frontier; result = result }))
  unfolding drain
  drain_lem zero p frontier gt result d h = absurd (omega arith)
  drain_lem (suc fuel) p [] gt result d h = (result, p, gt, refl, d)
  drain_lem (suc fuel) p (n ∷ rest) gt result d h =
      let node = d.frontier_nodes n (ground arith) in
      let (st, ran, d', same) =
        release_edges_lem g n (dependants g n)
          (record { gt = gt; frontier = rest; result = result ++ (n ∷ []) })
          (pop p n rest gt result d) (λ m e. e) (closed n)
          (set-IsUnique (dependants g n) (SetsAscending-get_or n g.nodes ordered.sets))
          (ground (arith, contains-append result (n ∷ []) n)) in
      let (l, q, gt', ran', done) = drain_lem fuel n st.frontier st.gt st.result d' (
        subst (λ r. unmarked (contains r) (PtrMap.keys g.nodes) < fuel) (sym same)
          (fewer n result fuel node (d.fresh n (ground arith)) h)) in
      (l, q, gt', rw (get_dependants_lem g n node) (rw ran ran'), done)

  finished :
      (l : List Ptr) (n : Ptr) (gt : DependenceGraph)
      → Draining g n [] (record { gt = gt; frontier = []; result = l })
      → IsTopologicalOrder g l
  finished l n gt d = record {
    unique = d.unique_result;
    inside = d.result_nodes;
    sorted = d.sorted;
    left_out = λ m node out.
        let (x, e) = first (dependants gt m) (d.queued m node ∙ out) in
        (x, ground (arith, d.edges m x), ground (arith, d.edges m x));
  }
    where
      first : (s : PtrSet) → is_empty s ≡ false → (x : Ptr) × (contains s x ≡ true)
      first [] h = absurd (not_both refl h)
      first (x ∷ s) h = (x, ground arith)

  -- On a well-formed graph with closed edges, `topsort` returns within as many rounds as there are
  -- nodes. Its list has nodes only, each once, and each after all nodes that it depends on; a node
  -- is left out only if it depends on one that is left out.
  pub topsort_lem : (l : List Ptr) × (topsort g ≡ ok l) × IsTopologicalOrder g l
  unfolding topsort
  topsort_lem =
      let (l, n, gt, ran, d) =
        drain_lem (depth_bound g) nullptr (sources (transpose g).nodes) (transpose g) []
          start-Draining
          (omega
            (arith, length-keys g.nodes, unmarked-le-length (contains []) (PtrMap.keys g.nodes))) in
      (l, ran, finished l n gt d)

  module _ (rank : Ptr → ℕ) (grows : (x y : Ptr) → has_edge g x y ≡ true → rank x < rank y) where
    all_listed :
        (l : List Ptr)
        → IsTopologicalOrder g l
        → (k : ℕ) (m : Ptr) → rank m < k
        → has_node g m ≡ true
        → contains l m ≡ true
    all_listed l order zero m h node = absurd (omega arith)
    all_listed l order (suc k) m h node = elim (Bool-cases (contains l m)) [
      | inl listed ↦ listed
      | inr out ↦
          let (x, e, out') = order.left_out m node out in
          absurd (
            not_both (all_listed l order k x (omega (arith, grows x m e)) (edge_source g x m e))
              out')
    ]

    -- If the nodes of a well-formed graph with closed edges have ranks that grow along each edge,
    -- so that it has no cycle, `topsort` returns a list of exactly its nodes, each once and each
    -- after all nodes that it depends on.
    topsort_acyclic :
        (l : List Ptr) × (topsort g ≡ ok l)
        × ((m : Ptr) → contains l m ≡ has_node g m)
        × IsUnique l
        × IsTopsorted g [] l
    topsort_acyclic =
        let (l, ran, order) = topsort_lem in
        (
          l,
          ran,
          λ m.
              Bool-ext (contains l m) (has_node g m)
                (order.inside m, all_listed l order (suc (rank m)) m (omega arith)),
          order.unique,
          order.sorted,
        )
