-- ===== src/DecoupleLoops/Queries.antt =====
-- What `isWork`, `isIter` and `hasWork` answer after the pass.
use icsa_dswp.Prelude.{
  ◌≡◌, ◌↔◌, refl, sym, ap, ◌∙◌, subst, Bool, true, false, not, ◌&&◌, ◌||◌, some, inl, inr, List, [],
  ◌∷◌, length, arith, ◌==◌, Bool-cases, Option-cases, contains, not_both,
}
use icsa_dswp.Std.{Ptr}
use icsa_dswp.Std.PtrMap
use icsa_dswp.Outcome.{Outcome, ok}
use icsa_dswp.Dependence.{has_node, IsClosed}
use icsa_dswp.Dependence.Order.{IsOrdered}
use icsa_dswp.Ir.{Function, LoopInfo}
use icsa_dswp.Psg
use icsa_dswp.Psg.{get_scc}
use icsa_dswp.DecoupleLoops.{
  Pass, Memory, run_on_function, release_memory, is_work, is_iter, has_work,
}
use icsa_dswp.DecoupleLoops.Homes.{AreKnown, home}
use icsa_dswp.DecoupleLoops.Classes.{files}
use icsa_dswp.DecoupleLoops.Decoupled.{AreRead, IsWork, IsDecoupled, decouple_lem}

pub is_work_runs :
    (memory : Memory) (q : Pass) (i s l : Ptr)
    → get_scc (memory.psg_at q.psgp) i ≡ ok s
    → is_work memory q i l ≡ ok (files q.loop_to_work_scc l s)
unfolding is_work
is_work_runs memory q i s l at = elim (Option-cases (PtrMap.find q.loop_to_work_scc l)) [
  | inl missing ↦ rw (missing, is_work) (ap ok (ground (arith, missing)))
  | inr (ss, found) ↦ rw (found, is_work) (rw at (ap ok (ground (arith, found))))
]

pub is_iter_runs :
    (memory : Memory) (q : Pass) (i s l : Ptr)
    → get_scc (memory.psg_at q.psgp) i ≡ ok s
    → is_iter memory q i l ≡ ok (files q.loop_to_iter_scc l s)
unfolding is_iter
is_iter_runs memory q i s l at = elim (Option-cases (PtrMap.find q.loop_to_iter_scc l)) [
  | inl missing ↦ rw (missing, is_iter) (ap ok (ground (arith, missing)))
  | inr (ss, found) ↦ rw (found, is_iter) (rw at (ap ok (ground (arith, found))))
]

filled_iff : (ss : List Ptr) → (not (length ss == 0) ≡ true) ↔ ((s : Ptr) × (contains ss s ≡ true))
filled_iff [] = (λ h. absurd (not_both h refl), λ (s, h). absurd (not_both h refl))
filled_iff (s ∷ ss) = (λ h. (s, ground arith), λ h. ground arith)

has_work_iff :
    (q : Pass) (l : Ptr)
    → (has_work q l ≡ true) ↔ ((s : Ptr) × (files q.loop_to_work_scc l s ≡ true))
unfolding has_work
has_work_iff q l = elim (Option-cases (PtrMap.find q.loop_to_work_scc l)) [
  | inl missing ↦
      (λ h. absurd (ground (arith, missing)), λ (s, h). absurd (ground (arith, missing)))
  | inr (ss, found) ↦ (
    λ h. let (s, there) = (filled_iff ss).0 (ground (arith, found)) in (s, ground (arith, found)),
    λ (s, h). ground (arith, found, (filled_iff ss).1 (s, ground (arith, found))),
  )
]

module _ (past_end : Outcome Ptr) (f : Function) (at_f at_psg at_li : Ptr) (psgp : Psg.Pass)
    (loops : LoopInfo) (ordered : IsOrdered psgp.psg) (closed : IsClosed psgp.psg)
    (known : AreKnown f psgp loops) (reads : AreRead past_end psgp.psg (home f psgp loops))
    (p q : Pass)
    (ran : run_on_function past_end f at_f at_psg at_li psgp loops (release_memory p) ≡ ok q) where
  ok_eq : {x y : Pass} → ok x ≡ ok y → x ≡ y
  ok_eq e = cc

  as-IsDecoupled : IsDecoupled psgp.psg (home f psgp loops) q × (q.psgp ≡ at_psg)
  as-IsDecoupled =
      let (q', ran', done, same, _) =
        decouple_lem past_end f at_f at_psg at_li psgp loops ordered closed known reads p in
      let equal = ok_eq (sym ran' ∙ ran) in
      (
        subst (IsDecoupled psgp.psg (home f psgp loops)) equal done,
        subst (λ x. x.psgp ≡ at_psg) equal same,
      )

  -- After a run on a well-formed graph of components, and for an instruction whose component is a
  -- node of it, `isWork` and `isIter` return, where `getSCC` of the component graph pass is asked
  -- as this pass is when the query runs. They are never both true of a loop, one of them is true
  -- exactly of the home of the component, and `isWork` is true exactly if, in addition, the
  -- component depends on a component with the same home.
  pub queries_lem :
      (memory : Memory) (i s l : Ptr)
      → get_scc (memory.psg_at at_psg) i ≡ ok s
      → has_node psgp.psg s ≡ true
      → (work iter : Bool) × (is_work memory q i l ≡ ok work)
        × (is_iter memory q i l ≡ ok iter)
        × (work && iter ≡ false)
        × ((work || iter ≡ true) ↔ (home f psgp loops s ≡ some l))
        × ((work ≡ true) ↔ IsWork psgp.psg (home f psgp loops) l s)
  queries_lem memory i s l at node =
      let (done, same) = as-IsDecoupled in
      let at' = subst (λ x. get_scc (memory.psg_at x) i ≡ ok s) (sym same) at in
      (
        files q.loop_to_work_scc l s,
        files q.loop_to_iter_scc l s,
        is_work_runs memory q i s l at',
        is_iter_runs memory q i s l at',
        exclusive done,
        (inside done, filed done),
        done.work l s,
      )
    where
      exclusive :
          IsDecoupled psgp.psg (home f psgp loops) q
          → files q.loop_to_work_scc l s && files q.loop_to_iter_scc l s ≡ false
      exclusive done = elim (Bool-cases (files q.loop_to_work_scc l s)) [
        | inr other ↦ ground (arith, other)
        | inl work ↦ elim (Bool-cases (files q.loop_to_iter_scc l s)) [
          | inr other ↦ ground (arith, other)
          | inl iter ↦
              let w = (done.work l s).0 work in
              absurd (((done.iter l s).0 iter).free w.source w.edge w.source_inside)
        ]
      ]

      inside :
          IsDecoupled psgp.psg (home f psgp loops) q
          → files q.loop_to_work_scc l s || files q.loop_to_iter_scc l s ≡ true
          → home f psgp loops s ≡ some l
      inside done h = elim (Bool-cases (files q.loop_to_work_scc l s)) [
        | inl work ↦ ((done.work l s).0 work).inside
        | inr other ↦ ((done.iter l s).0 (ground (arith, h, other))).inside
      ]

      filed :
          IsDecoupled psgp.psg (home f psgp loops) q
          → home f psgp loops s ≡ some l
          → files q.loop_to_work_scc l s || files q.loop_to_iter_scc l s ≡ true
      filed done h = elim (Bool-cases (files q.loop_to_work_scc l s)) [
        | inl work ↦ ground (arith, work)
        | inr other ↦
            let iter = (done.iter l s).1 (record {
              node = node;
              inside = h;
              free = λ t e there.
                  not_both
                    ((done.work l s).1
                      (record { inside = h; source = t; edge = e; source_inside = there }))
                    other;
            }) in
            ground (arith, iter)
      ]

  -- After such a run `hasWork` is true of a loop exactly if some component with this home depends
  -- on a component with the same home, although the pass also inserts empty sets.
  has_work_lem :
      (l : Ptr) → (has_work q l ≡ true) ↔ ((s : Ptr) × IsWork psgp.psg (home f psgp loops) l s)
  has_work_lem l =
      let (done, same) = as-IsDecoupled in
      (
        λ h. let (s, filed) = (has_work_iff q l).0 h in (s, (done.work l s).0 filed),
        λ (s, w). (has_work_iff q l).1 (s, (done.work l s).1 w),
      )
