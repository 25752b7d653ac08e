-- ===== src/ExampleDecoupleLoopsUser.antt =====
-- pass/src/ExampleDecoupleLoopsUser.cpp: a user of the loop decoupling pass that asks for each
-- instruction of the loops with work whether it is work and whether it is an iterator.
use icsa_dswp.Prelude.{Bool, false, not, none, some, if◌then◌else◌}
use icsa_dswp.Std.{Ptr}
use icsa_dswp.Outcome.{Outcome, ok, err, bad_dereference, ◌>>=◌, for_each}
use icsa_dswp.Ir.{Function, LoopInfo}
use icsa_dswp.DecoupleLoops
use icsa_dswp.DecoupleLoops.{Memory, get_li, has_work, is_work, is_iter}

module _ (memory : Memory) (dlp : DecoupleLoops.Pass) (f : Function) where
  -- The branches of the code are empty, so a round has no effect but the exceptions of the queries.
  unfoldable pub ask_inst : Ptr → Ptr → Unit {0} → Outcome (Unit {0})
  unfolding is_work is_iter
  ask_inst l inst u = do work ← is_work memory dlp inst l; iter ← is_iter memory dlp inst l; ok u

  unfoldable pub ask_loop : LoopInfo → Ptr → Unit {0} → Outcome (Unit {0})
  unfolding has_work ask_inst for_each
  ask_loop li l u =
      if not (has_work dlp l)
      then ok u
      else for_each (λ block. for_each (ask_inst l) (f.block_insts block)) (li.blocks l) u

  -- `ExampleDecoupleLoopsUser::runOnFunction`, which returns `false`
  unfoldable pub run_on_function : (at_f : Ptr) → Outcome Bool
  unfolding get_li ask_loop for_each
  run_on_function at_f = elim (get_li dlp at_f) [
    | none ↦ err bad_dereference
    | some at_li ↦ do
      let li = memory.loops_at at_li
      u ← for_each (ask_loop li) li.loops tt
      ok false
  ]
