-- ===== src/GraphUtils/Kosaraju/Order.antt =====
-- The first pass of `findSCC`: all nodes, each once, sorted by components.
use icsa_dswp.Prelude.{
  ◌≡◌, refl, sym, ◌∙◌, Bool, false, List, [], ◌∷◌, arith, contains, length, IsUnique,
}
use mathlib.Core.List.{append-nil}
use icsa_dswp.Std.{Ptr}
use icsa_dswp.Std.PtrSet.{PtrSet}
use icsa_dswp.Std.PtrMap
use icsa_dswp.Std.PtrMap.{PtrMap}
use icsa_dswp.Outcome.{ok}
use icsa_dswp.Dependence.{DependenceGraph, has_node, IsClosed}
use icsa_dswp.GraphUtils.{
  Enumeration, flag, create_visited_from, create_visited, post_order_enumerate, depth_bound,
  enumerate_all,
}
use icsa_dswp.GraphUtils.Walk.{free, Walk-mono}
use icsa_dswp.GraphUtils.Lists.{unmarked-le-length}
use icsa_dswp.GraphUtils.PostOrder.{children, post_order_enumerate_lem}
use icsa_dswp.GraphUtils.PostOrder.Runs.{IsSorted}

create_visited_from_unset :
    (m : PtrMap PtrSet) (v : PtrMap Bool) (n : Ptr)
    → PtrMap.get_or v n false ≡ false
    → PtrMap.get_or (create_visited_from m v) n false ≡ false
unfolding create_visited_from
create_visited_from_unset [] v n h = h
create_visited_from_unset ((k, s) ∷ m) v n h =
    create_visited_from_unset m (PtrMap.assign k false v) n
      (ground (arith, PtrMap.find-assign k false v n))

abbrev start : DependenceGraph → Enumeration
start g = record { visited = create_visited g; result = [] }

start_unset : (g : DependenceGraph) (n : Ptr) → flag (start g) n ≡ false
unfolding create_visited PtrMap.find
start_unset g n = create_visited_from_unset g.nodes [] n refl

pub length-keys {ℓ} : {V : Type ℓ} (m : PtrMap V) → length (PtrMap.keys m) ≡ length m
length-keys [] = refl
length-keys ((k, v) ∷ m) = omega (arith, length-keys m)

-- What the second pass relies on.
pub record IsPostOrder (g : DependenceGraph) (l : List Ptr) : Type 0 where
  pub unique : IsUnique l
  pub nodes : (n : Ptr) → contains l n ≡ has_node g n
  pub sorted : IsSorted g free l

pub enumerate_all_lem :
    (g : DependenceGraph) (order : List Ptr)
    → IsClosed g
    → ((n : Ptr) → contains order n ≡ has_node g n)
    → (e : Enumeration) × (enumerate_all g order ≡ ok e) × IsPostOrder g e.result
unfolding enumerate_all
enumerate_all_lem g order closed all =
    let (e, new, ran, done) =
      children g closed (post_order_enumerate g (depth_bound g)) (depth_bound g)
        (post_order_enumerate_lem g closed (depth_bound g)) order (start g) (λ r m. sym (all r) ∙ m)
        (omega (
          arith,
          length-keys g.nodes,
          unmarked-le-length (flag (start g)) (PtrMap.keys g.nodes),
        )) in
    (
      e,
      ran,
      rw (done.result ∙ append-nil new) (record {
        unique = done.unique;
        nodes = λ n.
            ground (arith, done.inside n, done.visited n, done.flags n, start_unset g n, all n);
        sorted = λ x y hx hy w.
            let (z, before, there, back) =
              done.sorted x y hx hy (Walk-mono (flag (start g)) (λ n h. start_unset g n) w) in
            (z, before, Walk-mono free (λ n h. refl) there, Walk-mono free (λ n h. refl) back);
      }),
    )
