-- ===== src/DecoupleLoops/Ready.antt =====
-- What the users of the pass rely on: its loops are there, and its queries return.
use icsa_dswp.Prelude.{◌≡◌, sym, ap, ◌∙◌, subst, Bool, some, true}
use icsa_dswp.Std.{Ptr, nullptr}
use icsa_dswp.Std.PtrMap
use icsa_dswp.Outcome.{Outcome, ok}
use icsa_dswp.Dependence.{IsClosed}
use icsa_dswp.Dependence.Order.{IsOrdered}
use icsa_dswp.Ir.{Function, LoopInfo}
use icsa_dswp.Psg
use icsa_dswp.Psg.{get_scc}
use icsa_dswp.DecoupleLoops.{
  Pass, Memory, run_on_function, release_memory, get_li, is_work, is_iter,
}
use icsa_dswp.DecoupleLoops.Homes.{AreKnown, home}
use icsa_dswp.DecoupleLoops.Classes.{files}
use icsa_dswp.DecoupleLoops.Decoupled.{AreRead, decouple_lem}
use icsa_dswp.DecoupleLoops.Queries.{is_work_runs, is_iter_runs}

-- The loops are those of the function, and `getSCC` has an answer for their instructions, as the
-- memory is now.
pub record IsReady (memory : Memory) (q : Pass) (f : Function) (at_f : Ptr) (loops : LoopInfo)
    : Type 0 where
  pub at_li : Ptr
  pub listed : get_li q at_f ≡ some at_li
  pub there : memory.loops_at at_li ≡ loops
  pub known : AreKnown f (memory.psg_at q.psgp) loops

abbrev pub scc_at : Memory → Pass → Ptr → Ptr
scc_at memory q i = PtrMap.get_or (memory.psg_at q.psgp).inst_to_scc i nullptr

-- Whether the component of the instruction is filed as work, or as an iterator.
abbrev pub filed_work : Memory → Pass → Ptr → Ptr → Bool
filed_work memory q l i = files q.loop_to_work_scc l (scc_at memory q i)

abbrev pub filed_iter : Memory → Pass → Ptr → Ptr → Bool
filed_iter memory q l i = files q.loop_to_iter_scc l (scc_at memory q i)

module _ (memory : Memory) (q : Pass) (l i : Ptr)
    (known : PtrMap.has_key (memory.psg_at q.psgp).inst_to_scc i ≡ true) where
  found : get_scc (memory.psg_at q.psgp) i ≡ ok (scc_at memory q i)
  unfolding get_scc
  found = PtrMap.at_lem (memory.psg_at q.psgp).inst_to_scc i nullptr known

  pub is_work_at : is_work memory q i l ≡ ok (filed_work memory q l i)
  is_work_at = is_work_runs memory q i (scc_at memory q i) l found

  pub is_iter_at : is_iter memory q i l ≡ ok (filed_iter memory q l i)
  is_iter_at = is_iter_runs memory q i (scc_at memory q i) l found

module _ (past_end : Outcome Ptr) (f : Function) (at_f at_psg at_li : Ptr) (psgp : Psg.Pass)
    (loops : LoopInfo) (ordered : IsOrdered psgp.psg) (closed : IsClosed psgp.psg)
    (known : AreKnown f psgp loops) (reads : AreRead past_end psgp.psg (home f psgp loops))
    (p q : Pass)
    (ran : run_on_function past_end f at_f at_psg at_li psgp loops (release_memory p) ≡ ok q) where
  same_pass : {x y : Pass} → ok x ≡ ok y → x ≡ y
  same_pass e = cc

  -- A run of the pass leaves it ready, while what it read is still in place.
  pub ready_lem :
      (memory : Memory)
      → memory.psg_at at_psg ≡ psgp
      → memory.loops_at at_li ≡ loops
      → IsReady memory q f at_f loops
  ready_lem memory psg_kept loops_kept =
      let (q', ran', _, same, there) =
        decouple_lem past_end f at_f at_psg at_li psgp loops ordered closed known reads p in
      let equal = same_pass (sym ran' ∙ ran) in
      subst (λ x. IsReady memory x f at_f loops) equal
        (record {
          at_li = at_li;
          listed = there;
          there = loops_kept;
          known = subst (λ x. AreKnown f x loops) (sym (ap memory.psg_at same ∙ psg_kept)) known;
        })
