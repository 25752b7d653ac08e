-- ===== src/Passes.antt =====
-- The analyses one after the other on one function. LLVM's pass manager runs what a pass requires
-- before the pass; here each runs on the results of those that its `runOnFunction` takes.
pub mod Blocks
pub mod Contract
pub mod Whole
use icsa_dswp.Prelude.{List, [], ◌∷◌}
use icsa_dswp.Std.{Ptr}
use icsa_dswp.Outcome.{Outcome, ok, ◌>>=◌}
use icsa_dswp.Dependence.{DependenceGraph, clear}
use icsa_dswp.Ir.{Function, LoopInfo}
use icsa_dswp.Cdg
use icsa_dswp.Cdg.{PostDominatorTree}
use icsa_dswp.Ddg
use icsa_dswp.Mdg
use icsa_dswp.Pdg
use icsa_dswp.Psg
use icsa_dswp.DecoupleLoops

-- the states of the six analyses between two functions
pub record Analyses : Type 0 where
  pub ddg : DependenceGraph
  pub mdg : DependenceGraph
  pub cdg : DependenceGraph
  pub pdg : DependenceGraph
  pub psg : Psg.Pass
  pub loops : DecoupleLoops.Pass

-- `releaseMemory` of each
unfoldable pub release_memory : Analyses → Analyses
unfolding clear Psg.release_memory DecoupleLoops.release_memory
release_memory a = record {
  ddg = clear a.ddg;
  mdg = clear a.mdg;
  cdg = clear a.cdg;
  pdg = clear a.pdg;
  psg = Psg.release_memory a.psg;
  loops = DecoupleLoops.release_memory a.loops;
}

-- The passes on the function `f` at the address `at_f`, with the component graph pass at `at_psg`
-- and the loops at `at_li`, each on the results of those it requires.
unfoldable pub run :
    (address : Ptr → Ptr) (past_end : Outcome Ptr) (f : Function) (at_f at_psg at_li : Ptr)
    (pdt : PostDominatorTree) (loops : LoopInfo)
    → Analyses
    → Outcome Analyses
unfolding Ddg.run_on_function Mdg.run_on_function Cdg.run_on_function Pdg.run_on_function
    Psg.run_on_function DecoupleLoops.run_on_function
run address past_end f at_f at_psg at_li pdt loops a = do
  cdg ← Cdg.run_on_function pdt a.cdg
  let mdg = Mdg.run_on_function f a.mdg
  let ddg = Ddg.run_on_function f a.ddg
  let pdg = Pdg.run_on_function f cdg mdg ddg a.pdg
  psg ← Psg.run_on_function address pdg a.psg
  decoupled ← DecoupleLoops.run_on_function past_end f at_f at_psg at_li psg loops a.loops
  ok (record { ddg = ddg; mdg = mdg; cdg = cdg; pdg = pdg; psg = psg; loops = decoupled })
