-- ===== src/GraphUtils/Topsort/Rounds.antt =====
-- What the loop of `topsort` keeps, and one edge that its inner loop removes.
use icsa_dswp.Prelude.{
  ◌≡◌, refl, sym, ◌∙◌, subst, Bool, true, false, not, ◌&&◌, ◌||◌, inl, inr, List, [], ◌∷◌, ◌++◌,
  arith, ◌==◌, if◌then◌else◌, Bool-cases, contains, contains-append, IsUnique,
}
use icsa_dswp.Std.{Ptr}
use icsa_dswp.Std.PtrSet.{PtrSet, erase, contains-erase}
use icsa_dswp.Std.PtrMap
use icsa_dswp.Std.PtrMap.{find-assign}
use icsa_dswp.Outcome.{ok, for_each}
use icsa_dswp.Dependence.{DependenceGraph, remove_edge, has_node, has_edge, dependants}
use icsa_dswp.Dependence.Laws.{get_dependants_lem}
use icsa_dswp.GraphUtils.{Sort, is_empty, release_edge}
use icsa_dswp.GraphUtils.Lists.{IsUnique-append}

-- Each node of the list comes after all nodes that it depends on, the given ones included.
abbrev pub IsTopsorted : DependenceGraph → List Ptr → List Ptr → Type 0
IsTopsorted g before [] = Unit
IsTopsorted g before (y ∷ l) =
    ((x : Ptr) → has_edge g x y ≡ true → contains before x ≡ true) × IsTopsorted g (y ∷ before) l

pub IsTopsorted-snoc :
    (g : DependenceGraph) (before l : List Ptr) (n : Ptr)
    → IsTopsorted g before l
    → ((x : Ptr) → has_edge g x n ≡ true → contains before x || contains l x ≡ true)
    → IsTopsorted g before (l ++ n ∷ [])
IsTopsorted-snoc g before [] n t h = (λ x e. ground (arith, h x e), tt)
IsTopsorted-snoc g before (y ∷ l) n t h =
    (t.0, IsTopsorted-snoc g (y ∷ before) l n t.1 (λ x e. ground (arith, h x e)))

pub filled : (s : PtrSet) (x : Ptr) → contains s x ≡ true → is_empty s ≡ false
filled [] x h = cc
filled (y ∷ s) x h = refl

module _ (g : DependenceGraph) where
  -- Of the edges into the processed nodes, those from `n` to the nodes of a list are still there.
  pub record Draining (n : Ptr) (left : List Ptr) (st : Sort) : Type 0 where
    pub edges :
        (m x : Ptr)
        → has_edge st.gt m x
          ≡ (has_edge g x m && (not (contains st.result x) || x == n && contains left m))
    pub queued :
        (m : Ptr)
        → has_node g m ≡ true
        → is_empty (dependants st.gt m) ≡ (contains st.frontier m || contains st.result m)
    pub nodes : (m : Ptr) → has_node st.gt m ≡ has_node g m
    pub fresh : (m : Ptr) → contains st.frontier m ≡ true → contains st.result m ≡ false
    pub unique_frontier : IsUnique st.frontier
    pub unique_result : IsUnique st.result
    pub frontier_nodes : (m : Ptr) → contains st.frontier m ≡ true → has_node g m ≡ true
    pub result_nodes : (m : Ptr) → contains st.result m ≡ true → has_node g m ≡ true
    pub sorted : IsTopsorted g [] st.result

  remove_edge_runs :
      (m n : Ptr) (gt : DependenceGraph)
      → has_node gt m ≡ true
      → (gt' : DependenceGraph) × (remove_edge m n gt ≡ ok gt')
        × ((k : Ptr) → has_node gt' k ≡ has_node gt k)
        × ((k : Ptr)
            → dependants gt' k ≡ (if m == k then erase n (dependants gt m) else dependants gt k))
  unfolding remove_edge
  remove_edge_runs m n gt h = (
    record { nodes = PtrMap.assign m (erase n (dependants gt m)) gt.nodes },
    ground arith,
    λ k. ground (arith, find-assign m (erase n (dependants gt m)) gt.nodes k),
    λ k. ground (arith, find-assign m (erase n (dependants gt m)) gt.nodes k),
  )

  module _ (n m : Ptr) (rest : List Ptr) (st : Sort) (before : Draining n (m ∷ rest) st)
      (edge : has_edge g n m ≡ true) (node : has_node g m ≡ true) (once : contains rest m ≡ false)
      (popped : contains st.result n ≡ true) where
    waiting : contains st.frontier m || contains st.result m ≡ false
    waiting =
        sym (before.queued m node)
        ∙ filled (dependants st.gt m) n (ground (arith, before.edges m n, edge))

    module _ (gt' : DependenceGraph) (same : (k : Ptr) → has_node gt' k ≡ has_node st.gt k)
        (deps : (k : Ptr)
          → dependants gt' k
            ≡ (if m == k then erase n (dependants st.gt m) else dependants st.gt k)) where
      edges_after :
          (k x : Ptr)
          → has_edge gt' k x
            ≡ (has_edge g x k && (not (contains st.result x) || x == n && contains rest k))
      edges_after k x = elim (Bool-cases (m == k)) [
        | inl here ↦ ground (
          arith,
          deps k,
          before.edges k x,
          contains-erase n (dependants st.gt m) x,
          once,
          popped,
          here,
        )
        | inr other ↦ ground (arith, deps k, before.edges k x, other)
      ]

      abbrev queue : Bool → List Ptr
      queue b = if b then st.frontier ++ (m ∷ []) else st.frontier

      after :
          (b : Bool)
          → is_empty (dependants gt' m) ≡ b
          → Draining n rest (record { gt = gt'; frontier = queue b; result = st.result })
      after true e = record {
        edges = edges_after;
        queued = λ k h.
            ground (arith, deps k, e, before.queued k h, contains-append st.frontier (m ∷ []) k);
        nodes = λ k. same k ∙ before.nodes k;
        fresh =
            λ k h. ground (arith, waiting, before.fresh k, contains-append st.frontier (m ∷ []) k);
        unique_frontier =
            IsUnique-append st.frontier (m ∷ []) before.unique_frontier (refl, tt)
              (λ k h. ground (arith, waiting, h));
        unique_result = before.unique_result;
        frontier_nodes = λ k h.
            ground (arith, node, before.frontier_nodes k, contains-append st.frontier (m ∷ []) k);
        result_nodes = before.result_nodes;
        sorted = before.sorted;
      }
      after false e = record {
        edges = edges_after;
        queued = λ k h. ground (arith, deps k, e, before.queued k h, waiting);
        nodes = λ k. same k ∙ before.nodes k;
        fresh = before.fresh;
        unique_frontier = before.unique_frontier;
        unique_result = before.unique_result;
        frontier_nodes = before.frontier_nodes;
        result_nodes = before.result_nodes;
        sorted = before.sorted;
      }

    release_edge_lem :
        (st' : Sort) × (release_edge n m st ≡ ok st')
        × Draining n rest st'
        × (st'.result ≡ st.result)
    unfolding release_edge
    release_edge_lem =
        let (gt', ran, same, deps) = remove_edge_runs m n st.gt (before.nodes m ∙ node) in
        (
          record {
            gt = gt';
            frontier = if is_empty (dependants gt' m) then st.frontier ++ (m ∷ []) else st.frontier;
            result = st.result;
          },
          rw ran (rw (get_dependants_lem gt' m (same m ∙ before.nodes m ∙ node))),
          after gt' same deps (is_empty (dependants gt' m)) refl,
          refl,
        )

  pub release_edges_lem :
      (n : Ptr) (ms : List Ptr) (st : Sort)
      → Draining n ms st
      → ((m : Ptr) → contains ms m ≡ true → has_edge g n m ≡ true)
      → ((m : Ptr) → contains ms m ≡ true → has_node g m ≡ true)
      → IsUnique ms
      → contains st.result n ≡ true
      → (st' : Sort) × (for_each (release_edge n) ms st ≡ ok st')
        × Draining n [] st'
        × (st'.result ≡ st.result)
  unfolding for_each
  release_edges_lem n [] st d es ns u popped = (st, refl, d, refl)
  release_edges_lem n (m ∷ ms) st d es ns u popped =
      let (st₁, ran₁, d₁, same₁) =
        release_edge_lem n m ms st d (es m (ground arith)) (ns m (ground arith)) u.0 popped in
      let (st₂, ran₂, d₂, same₂) =
        release_edges_lem n ms st₁ d₁ (λ k h. es k (ground arith)) (λ k h. ns k (ground arith)) u.1
          (subst (λ r. contains r n ≡ true) (sym same₁) popped) in
      (st₂, rw ran₁ ran₂, d₂, same₂ ∙ same₁)
