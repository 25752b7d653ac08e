-- ===== src/GraphUtils/Kosaraju.antt =====
-- `findSCC`: on a closed graph it returns, and two nodes have the same root exactly if each of
-- them reaches the other.
pub mod Order
pub mod Roots
use icsa_dswp.Prelude.{
  ◌≡◌, ◌≢◌, ◌↔◌, refl, sym, ◌∙◌, subst, true, false, List, [], ◌∷◌, ◌++◌, arith, contains,
  contains-append, not_both, ◌||◌,
}
use mathlib.Core.List.{append-nil, append_assoc}
use icsa_dswp.Std.{Ptr, nullptr}
use icsa_dswp.Std.PtrSet.{PtrSet}
use icsa_dswp.Std.PtrMap
use icsa_dswp.Std.PtrMap.{PtrMap}
use icsa_dswp.Outcome.{Outcome, ok, ◌>>=◌, for_each}
use icsa_dswp.Dependence.{DependenceGraph, has_node, IsClosed}
use icsa_dswp.Dependence.Order.{IsOrdered}
use icsa_dswp.GraphUtils.{
  root_of, taken, transpose, depth_bound, create_component_from, create_component, assign_component,
  assign_all, find_scc,
}
use icsa_dswp.GraphUtils.Walk.{Strong, Walk-trans}
use icsa_dswp.GraphUtils.Lists.{unmarked-le-length}
use icsa_dswp.GraphUtils.Transpose.{has_node-transpose, transpose-IsClosed}
use icsa_dswp.GraphUtils.Component.{assign_component_lem}
use Order.{IsPostOrder, length-keys, enumerate_all_lem}
use Roots.{IsPartial, IsPartial-next}

-- The promise of `findSCC`: a root for each node, the same one exactly within a component.
pub record IsComponents (g : DependenceGraph) (component : PtrMap Ptr) : Type 0 where
  pub keyed : (n : Ptr) → PtrMap.has_key component n ≡ has_node g n
  pub ascending : PtrMap.IsAscending component
  pub root : (n : Ptr) → has_node g n ≡ true → Strong g n (root_of component n)
  pub same :
      (a b : Ptr)
      → has_node g a ≡ true
      → has_node g b ≡ true
      → (root_of component a ≡ root_of component b) ↔ Strong g a b

create_component_from_unset :
    (m : PtrMap PtrSet) (c : PtrMap Ptr) (n : Ptr)
    → taken c n ≡ false
    → taken (create_component_from m c) n ≡ false
unfolding create_component_from
create_component_from_unset [] c n h = h
create_component_from_unset ((k, s) ∷ m) c n h =
    create_component_from_unset m (PtrMap.assign k nullptr c) n
      (ground (arith, PtrMap.find-assign k nullptr c n))

create_component_from_keyed :
    (m : PtrMap PtrSet) (c : PtrMap Ptr) (n : Ptr)
    → PtrMap.has_key (create_component_from m c) n
      ≡ (PtrMap.has_key c n || contains (PtrMap.keys m) n)
unfolding create_component_from
create_component_from_keyed [] c n = ground arith
create_component_from_keyed ((k, s) ∷ m) c n = ground (
  arith,
  create_component_from_keyed m (PtrMap.assign k nullptr c) n,
  PtrMap.find-assign k nullptr c n,
)

create_component_from-IsAscending :
    (m : PtrMap PtrSet) (c : PtrMap Ptr)
    → PtrMap.IsAscending c
    → PtrMap.IsAscending (create_component_from m c)
unfolding create_component_from
create_component_from-IsAscending [] c h = h
create_component_from-IsAscending ((k, s) ∷ m) c h =
    create_component_from-IsAscending m (PtrMap.assign k nullptr c)
      (PtrMap.assign-IsAscending k nullptr c h)

create_component-IsPartial : (g : DependenceGraph) → IsPartial g [] (create_component g)
unfolding create_component PtrMap.find
create_component-IsPartial g = record {
  strong = λ n t. absurd (not_both t (unset n));
  whole = λ n m t s. absurd (not_both t (unset n));
  done = λ z h. cc;
  keyed =
      λ n. ground (arith, create_component_from_keyed g.nodes [] n, PtrMap.contains-keys g.nodes n);
  ascending = create_component_from-IsAscending g.nodes [] tt;
}
  where
    unset : (n : Ptr) → taken (create_component g) n ≡ false
    unset n = create_component_from_unset g.nodes [] n refl

module _ (g : DependenceGraph) (ordered : IsOrdered g) (closed : IsClosed g)
    (proper : has_node g nullptr ≡ false) where
  abbrev body : Ptr → PtrMap Ptr → Outcome (PtrMap Ptr)
  body u = assign_component (transpose g) (depth_bound (transpose g)) u u

  assign_from :
      (pre rest : List Ptr) (c : PtrMap Ptr)
      → IsPostOrder g (pre ++ rest)
      → IsPartial g pre c
      → (d : PtrMap Ptr) × (for_each body rest c ≡ ok d) × IsPartial g (pre ++ rest) d
  unfolding for_each
  assign_from pre [] c order partial = (c, refl, rw append-nil partial)
  assign_from pre (r ∷ rest) c order partial =
      let node : has_node g r ≡ true =
        sym (order.nodes r) ∙ ground (arith, contains-append pre (r ∷ rest) r) in
      let (d, ran, run) =
        assign_component_lem (transpose g) (transpose-IsClosed g ordered closed) r
          (λ e. not_both node (subst (λ x. has_node g x ≡ false) (sym e) proper))
          (depth_bound (transpose g)) r c (has_node-transpose g ordered closed r ∙ node)
          (omega (
            arith,
            length-keys (transpose g).nodes,
            unmarked-le-length (taken c) (PtrMap.keys (transpose g).nodes),
          )) in
      let regroup : (pre ++ r ∷ []) ++ rest ≡ pre ++ r ∷ rest = append_assoc pre (r ∷ []) rest in
      let (end, ran', done) =
        assign_from (pre ++ r ∷ []) rest d (subst (IsPostOrder g) (sym regroup) order)
          (IsPartial-next g ordered closed pre r rest order c d partial run) in
      (end, rw ran ran', subst (λ l. IsPartial g l end) regroup done)

  complete : (l : List Ptr) (d : PtrMap Ptr) → IsPostOrder g l → IsPartial g l d → IsComponents g d
  complete l d order partial = record {
    keyed = partial.keyed;
    ascending = partial.ascending;
    root = λ n node. partial.strong n (rooted n node);
    same = λ a b node_a node_b. (
      λ e.
          let (to, from) = partial.strong a (rooted a node_a) in
          let (to', from') =
            subst (λ r. Strong g b r) (sym e) (partial.strong b (rooted b node_b)) in
          (Walk-trans to from', Walk-trans to' from),
      λ s. sym (partial.whole a b (rooted a node_a) s),
    );
  }
    where
      rooted : (n : Ptr) → has_node g n ≡ true → taken d n ≡ true
      rooted n node = partial.done n (order.nodes n ∙ node)

  -- For a well-formed graph with closed edges and no null node, `findSCC` returns: it neither
  -- throws nor needs more nested calls than `depth_bound`. Its result has a root for each node and
  -- for no other address, each node and its root reach each other, and two nodes have the same
  -- root if and only if each of them reaches the other.
  pub find_scc_lem :
      (component : PtrMap Ptr) × (find_scc g ≡ ok component) × IsComponents g component
  unfolding find_scc assign_all
  find_scc_lem =
      let (e, ran, order) =
        enumerate_all_lem g (PtrMap.keys (transpose g).nodes) closed (λ n.
          PtrMap.contains-keys (transpose g).nodes n ∙ has_node-transpose g ordered closed n) in
      let (d, ran', done) =
        assign_from [] e.result (create_component g) order (create_component-IsPartial g) in
      (d, rw ran ran', complete e.result d order done)
