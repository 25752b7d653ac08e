-- ===== src/DecoupleLoops/Decoupled.antt =====
-- What the pass leaves: the components of each loop as work and as iterators.
use icsa_dswp.Prelude.{
  ◌≡◌, ◌≢◌, ◌↔◌, refl, sym, ap, ◌∙◌, Bool, true, ◌&&◌, Option, none, some, inl, inr, [], ◌∷◌, arith,
  Bool-cases, contains, not_both,
}
use icsa_dswp.Std.{Ptr}
use icsa_dswp.Std.PtrSet.{PtrSet}
use icsa_dswp.Std.PtrMap
use icsa_dswp.Std.PtrMap.{PtrMap, find-assign}
use icsa_dswp.Outcome.{Error, Outcome, ok, err}
use icsa_dswp.Dependence.{DependenceGraph, has_node, has_edge, dependants, IsClosed}
use icsa_dswp.Dependence.Order.{IsOrdered}
use icsa_dswp.GraphUtils.{transpose}
use icsa_dswp.GraphUtils.Transpose.{has_edge-transpose, has_node-transpose}
use icsa_dswp.Ir.{Function, LoopInfo}
use icsa_dswp.Psg
use icsa_dswp.DecoupleLoops.{Pass, run_on_function, release_memory, get_li}
use icsa_dswp.DecoupleLoops.Homes.{AreKnown, home, homes_lem}
use icsa_dswp.DecoupleLoops.Classes.{
  files, keys-IsUnique, at_home, any_at_home, is_worker, is_iterator, Classified, classify_all_lem,
  classify_fails,
}

-- The component belongs to the loop, and depends on a component of the same loop.
pub record IsWork (psg : DependenceGraph) (home_of : Ptr → Option Ptr) (l s : Ptr) : Type 0 where
  pub inside : home_of s ≡ some l
  pub source : Ptr
  pub edge : has_edge psg source s ≡ true
  pub source_inside : home_of source ≡ some l

-- The component belongs to the loop, and depends on no component of the same loop.
pub record IsIter (psg : DependenceGraph) (home_of : Ptr → Option Ptr) (l s : Ptr) : Type 0 where
  pub node : has_node psg s ≡ true
  pub inside : home_of s ≡ some l
  pub free : (t : Ptr) → has_edge psg t s ≡ true → home_of t ≢ some l

pub record IsDecoupled (psg : DependenceGraph) (home_of : Ptr → Option Ptr) (q : Pass)
    : Type 0 where
  pub work : (l s : Ptr) → (files q.loop_to_work_scc l s ≡ true) ↔ IsWork psg home_of l s
  pub iter : (l s : Ptr) → (files q.loop_to_iter_scc l s ≡ true) ↔ IsIter psg home_of l s

at_home_iff :
    (homes : PtrMap Ptr) (l s : Ptr) → (at_home homes l s ≡ true) ↔ (PtrMap.find homes s ≡ some l)
at_home_iff homes l s = ground arith

any_at_home_iff :
    (homes : PtrMap Ptr) (l : Ptr) (ss : PtrSet)
    → (any_at_home homes l ss ≡ true)
      ↔ ((t : Ptr) × (contains ss t ≡ true) × (at_home homes l t ≡ true))
any_at_home_iff homes l [] = (λ h. absurd (not_both h refl), λ (t, h, k). absurd (not_both h refl))
any_at_home_iff homes l (s ∷ ss) = (
  λ h. elim (Bool-cases (at_home homes l s)) [
    | inl now ↦ (s, ground arith, now)
    | inr later ↦
        let (t, there, inside) = (any_at_home_iff homes l ss).0 (ground arith) in
        (t, ground arith, inside)
  ],
  λ (t, there, inside). elim (Bool-cases (contains ss t)) [
    | inl later ↦ ground (arith, (any_at_home_iff homes l ss).1 (t, later, inside))
    | inr now ↦ ground arith
  ],
)

-- If a component of the graph is in no loop, the read through the end iterator has some value.
abbrev pub AreRead : Outcome Ptr → DependenceGraph → (Ptr → Option Ptr) → Type 0
AreRead past_end psg home_of =
    (s : Ptr) → has_node psg s ≡ true → home_of s ≡ none → (v : Ptr) × (past_end ≡ ok v)

module _ (past_end : Outcome Ptr) (f : Function) (at_f at_psg at_li : Ptr) (psgp : Psg.Pass)
    (loops : LoopInfo) (ordered : IsOrdered psgp.psg) (closed : IsClosed psgp.psg)
    (known : AreKnown f psgp loops) (reads : AreRead past_end psgp.psg (home f psgp loops))
    (p : Pass) where
  abbrev start : Pass
  start = record {
    li = PtrMap.assign at_f at_li p.li;
    loop_to_iter_scc = [];
    loop_to_work_scc = [];
    psgp = at_psg;
  }

  module _ (homes : PtrMap Ptr) (at : (s : Ptr) → PtrMap.find homes s ≡ home f psgp loops s) where
    sources_iff :
        (l s : Ptr)
        → (any_at_home homes l (dependants (transpose psgp.psg) s) ≡ true)
          ↔ ((t : Ptr) × (has_edge psgp.psg t s ≡ true) × (home f psgp loops t ≡ some l))
    sources_iff l s = (
      λ h.
          let (t, there, inside) =
            (any_at_home_iff homes l (dependants (transpose psgp.psg) s)).0 h in
          (
            t,
            sym (has_edge-transpose psgp.psg ordered s t) ∙ there,
            sym (at t) ∙ (at_home_iff homes l t).0 inside,
          ),
      λ (t, e, inside). (any_at_home_iff homes l (dependants (transpose psgp.psg) s)).1 (
        t,
        has_edge-transpose psgp.psg ordered s t ∙ e,
        (at_home_iff homes l t).1 (at t ∙ inside),
      ),
    )

    both : {a b : Bool} → a && b ≡ true → (a ≡ true) × (b ≡ true)
    both {a} {b} h = (ground arith, ground arith)

    work_iff :
        (l s : Ptr)
        → (has_node psgp.psg s && is_worker homes (transpose psgp.psg) l s ≡ true)
          ↔ IsWork psgp.psg (home f psgp loops) l s
    work_iff l s = (
      λ h.
          let (node, working) = both h in
          let (inside, any) = both working in
          let (t, e, there) = (sources_iff l s).0 any in
          record {
            inside = sym (at s) ∙ (at_home_iff homes l s).0 inside;
            source = t;
            edge = e;
            source_inside = there;
          },
      λ w. ground (
        arith,
        closed w.source s w.edge,
        (at_home_iff homes l s).1 (at s ∙ w.inside),
        (sources_iff l s).1 (w.source, w.edge, w.source_inside),
      ),
    )

    IsIter-iff :
        (l s : Ptr)
        → (has_node psgp.psg s && is_iterator homes (transpose psgp.psg) l s ≡ true)
          ↔ IsIter psgp.psg (home f psgp loops) l s
    IsIter-iff l s = (
      λ h.
          let (node, iterating) = both h in
          let (inside, free) = both iterating in
          record {
            node = node;
            inside = sym (at s) ∙ (at_home_iff homes l s).0 inside;
            free = λ t e there. ground (arith, (sources_iff l s).1 (t, e, there), free);
          },
      λ i. elim (Bool-cases (any_at_home homes l (dependants (transpose psgp.psg) s))) [
        | inl any ↦ let (t, e, there) = (sources_iff l s).0 any in absurd (i.free t e there)
        | inr free ↦ ground (arith, i.node, (at_home_iff homes l s).1 (at s ∙ i.inside), free)
      ],
    )

    decoupled :
        (q : Pass)
        → Classified homes (transpose psgp.psg) start q (PtrMap.keys psgp.psg.nodes)
        → IsDecoupled psgp.psg (home f psgp loops) q
    unfolding PtrMap.find
    decoupled q done = record {
      work = λ l s. (
        λ h.
            (work_iff l s).0 (ground (arith, done.work l s, PtrMap.contains-keys psgp.psg.nodes s)),
        λ w.
            ground
              (arith, done.work l s, PtrMap.contains-keys psgp.psg.nodes s, (work_iff l s).1 w),
      );
      iter = λ l s. (
        λ h.
            (IsIter-iff l s).0
              (ground (arith, done.iter l s, PtrMap.contains-keys psgp.psg.nodes s)),
        λ i.
            ground
              (arith, done.iter l s, PtrMap.contains-keys psgp.psg.nodes s, (IsIter-iff l s).1 i),
      );
    }

  -- On a well-formed graph of components with closed edges, and where `getSCC` has an answer for
  -- each instruction of each loop, the pass returns, if the read through the end iterator has some
  -- value or there is no component outside the loops. Of the components whose home is a loop, it
  -- files as work exactly those that depend on a component with the same home, and as iterators
  -- exactly the others; the home is the last loop with an instruction of the component. `getLI`
  -- then has the address of the loops of the function.
  pub decouple_lem :
      (q : Pass) × (run_on_function past_end f at_f at_psg at_li psgp loops (release_memory p)
        ≡ ok q)
      × IsDecoupled psgp.psg (home f psgp loops) q
      × (q.psgp ≡ at_psg)
      × (get_li q at_f ≡ some at_li)
  unfolding run_on_function release_memory get_li
  decouple_lem =
      let (homes, ran, at) = homes_lem f psgp loops known in
      let (q, ran', done) =
        classify_all_lem homes (transpose psgp.psg) past_end (PtrMap.keys psgp.psg.nodes) start
          (keys-IsUnique psgp.psg.nodes ordered.keys)
          (λ s h.
            has_node-transpose psgp.psg ordered closed s
            ∙ sym (PtrMap.contains-keys psgp.psg.nodes s)
            ∙ h)
          (λ s h out. reads s (sym (PtrMap.contains-keys psgp.psg.nodes s) ∙ h) (sym (at s) ∙ out))
          (λ l s h. refl) in
      (
        q,
        rw ran ran',
        decoupled homes at q done,
        done.same_psg,
        ap (λ m. PtrMap.find m at_f) done.same_li
            ∙ ground (arith, find-assign at_f at_li p.li at_f),
      )

module _ (e : Error) (f : Function) (at_f at_psg at_li : Ptr) (psgp : Psg.Pass) (loops : LoopInfo)
    (ordered : IsOrdered psgp.psg) (closed : IsClosed psgp.psg)
    (known : AreKnown f psgp loops) where
  -- If, on a well-formed graph of components with closed edges, some component is in no loop, and
  -- the read through the end iterator fails, then the pass fails.
  pub past_end_lem :
      (p : Pass) (s : Ptr)
      → has_node psgp.psg s ≡ true
      → home f psgp loops s ≡ none
      → run_on_function (err e) f at_f at_psg at_li psgp loops p ≡ err e
  unfolding run_on_function
  past_end_lem p s node outside =
      let (homes, ran, at) = homes_lem f psgp loops known in
      rw ran (
        classify_fails homes (transpose psgp.psg) e (PtrMap.keys psgp.psg.nodes)
          (record p { psgp = at_psg; li = PtrMap.assign at_f at_li p.li }) s
          (PtrMap.contains-keys psgp.psg.nodes s ∙ node) (at s ∙ outside)
          (λ t h.
            has_node-transpose psgp.psg ordered closed t
            ∙ sym (PtrMap.contains-keys psgp.psg.nodes t)
            ∙ h))
