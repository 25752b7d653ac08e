-- ===== src/DecoupleLoops.antt =====
-- pass/src/DecoupleLoops.cpp and pass/include/DecoupleLoops.h: each component of instructions in a
-- loop is an iterator or the work of the loop.
pub mod Homes
pub mod Classes
pub mod Decoupled
pub mod Queries
pub mod Pipeline
pub mod Ready
use icsa_dswp.Prelude.{
  ℕ, Bool, true, false, not, Option, none, some, List, [], ◌∷◌, length, ◌==◌, if◌then◌else◌,
  contains,
}
use icsa_dswp.Std.{Ptr}
use icsa_dswp.Std.PtrSet.{PtrSet, insert}
use icsa_dswp.Std.PtrMap
use icsa_dswp.Std.PtrMap.{PtrMap}
use icsa_dswp.Outcome.{Outcome, ok, ◌>>=◌, for_each}
use icsa_dswp.Dependence.{DependenceGraph, get_dependants}
use icsa_dswp.GraphUtils.{transpose}
use icsa_dswp.Ir.{Function, LoopInfo}
use icsa_dswp.Psg
use icsa_dswp.Psg.{get_scc}

-- the data members of `DecoupleLoopsPass`
pub record Pass : Type 0 where
  pub li : PtrMap Ptr
  pub loop_to_iter_scc : PtrMap PtrSet
  pub loop_to_work_scc : PtrMap PtrSet
  pub psgp : Ptr

-- What stands at the addresses that the pass keeps: the component graph pass and LLVM's loops, as
-- they are when they are read.
pub record Memory : Type 0 where
  pub psg_at : Ptr → Psg.Pass
  pub loops_at : Ptr → LoopInfo

module _ (f : Function) (psgp : Psg.Pass) (loops : LoopInfo) where
  -- `SccToLoop[PSGP->getSCC(&Inst)] = L` for each instruction of a block
  unfoldable pub map_insts : Ptr → List Ptr → PtrMap Ptr → Outcome (PtrMap Ptr)
  unfolding get_scc for_each PtrMap.assign
  map_insts l =
      for_each λ inst scc_to_loop. do scc ← get_scc psgp inst; ok (PtrMap.assign scc l scc_to_loop)

  -- for each block of a loop
  unfoldable pub map_blocks : Ptr → List Ptr → PtrMap Ptr → Outcome (PtrMap Ptr)
  unfolding map_insts for_each
  map_blocks l = for_each λ block. map_insts l (f.block_insts block)

  -- for each loop
  unfoldable pub map_loops : List Ptr → PtrMap Ptr → Outcome (PtrMap Ptr)
  unfolding map_blocks for_each
  map_loops = for_each λ l. map_blocks l (loops.blocks l)

-- The loop over the components that `s₁` depends on. A component outside all loops compares as
-- different. At the first one in the loop the search ends.
unfoldable pub find_work : PtrMap Ptr → (s₁ l : Ptr) → PtrSet → PtrMap PtrSet → PtrMap PtrSet
unfolding PtrMap.find PtrMap.assign insert
find_work scc_to_loop s₁ l [] work = work
find_work scc_to_loop s₁ l (s₂ ∷ ss) work =
    let rest = find_work scc_to_loop s₁ l ss work in
    elim (PtrMap.find scc_to_loop s₂) [
      | none ↦ rest
      | some l₂ ↦
          if l == l₂ then PtrMap.assign l (insert s₁ (PtrMap.get_or work l [])) work else rest
    ]

-- The body of the second loop, which reads `S1LoopPair->second` before it compares with `end()`.
-- What that read is at the end iterator, which C++ leaves undefined, is the argument `past_end`.
-- `LoopToWorkScc[S1Loop]` inserts an empty set for the loop.
unfoldable pub classify :
    (past_end : Outcome Ptr) → PtrMap Ptr → DependenceGraph → Ptr → Pass → Outcome Pass
unfolding PtrMap.find find_work get_dependants PtrMap.touch PtrMap.assign insert
classify past_end scc_to_loop tpsg s₁ p = elim (PtrMap.find scc_to_loop s₁) [
  | none ↦ do s1_loop ← past_end; ok p
  | some l ↦ do
    deps ← get_dependants tpsg s₁
    let work = PtrMap.touch l [] (find_work scc_to_loop s₁ l deps p.loop_to_work_scc)
    ok (record p {
      loop_to_work_scc = work;
      loop_to_iter_scc =
          if contains (PtrMap.get_or work l []) s₁
          then p.loop_to_iter_scc
          else PtrMap.assign l (insert s₁ (PtrMap.get_or p.loop_to_iter_scc l []))
              p.loop_to_iter_scc;
    })
]

-- `DecoupleLoopsPass::runOnFunction`, on the function at the address `at_f`, where the component
-- graph pass stands at `at_psg` and the loops at `at_li`
unfoldable pub run_on_function :
    (past_end : Outcome Ptr) (f : Function) (at_f at_psg at_li : Ptr) (psgp : Psg.Pass)
    (loops : LoopInfo)
    → Pass
    → Outcome Pass
unfolding map_loops transpose classify for_each
run_on_function past_end f at_f at_psg at_li psgp loops p = do
  scc_to_loop ← map_loops f psgp loops loops.loops []
  for_each (classify past_end scc_to_loop (transpose psgp.psg)) (PtrMap.keys psgp.psg.nodes)
      (record p { psgp = at_psg; li = PtrMap.assign at_f at_li p.li })

-- `getLI`, with the null pointer as `none`
unfoldable pub get_li : Pass → Ptr → Option Ptr
unfolding PtrMap.find
get_li p at_f = PtrMap.find p.li at_f

-- `isWork`, where `inst` is looked up only if the loop is there
unfoldable pub is_work : Memory → Pass → Ptr → Ptr → Outcome Bool
unfolding PtrMap.find get_scc
is_work memory p inst l = elim (PtrMap.find p.loop_to_work_scc l) [
  | none ↦ ok false
  | some s ↦ do scc ← get_scc (memory.psg_at p.psgp) inst; ok (contains s scc)
]

-- `isIter`
unfoldable pub is_iter : Memory → Pass → Ptr → Ptr → Outcome Bool
unfolding PtrMap.find get_scc
is_iter memory p inst l = elim (PtrMap.find p.loop_to_iter_scc l) [
  | none ↦ ok false
  | some s ↦ do scc ← get_scc (memory.psg_at p.psgp) inst; ok (contains s scc)
]

-- `hasWork`
unfoldable pub has_work : Pass → Ptr → Bool
unfolding PtrMap.find
has_work p l = elim (PtrMap.find p.loop_to_work_scc l) [
  | none ↦ false
  | some s ↦ not (length s == 0)
]

-- `releaseMemory`, which leaves `LI`
unfoldable pub release_memory : Pass → Pass
release_memory p = record p { loop_to_work_scc = []; loop_to_iter_scc = [] }
