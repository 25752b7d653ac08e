-- ===== src/Tests/Graphs.antt =====
-- Runs of the code on small inputs.
use icsa_dswp.Prelude.{◌≡◌, refl, [], ◌∷◌}
use icsa_dswp.Outcome.{ok}
use icsa_dswp.Dependence.{DependenceGraph, empty}
use icsa_dswp.GraphUtils.{find_scc, topsort}
use icsa_dswp.Psg.{run_on_function}
use icsa_dswp.Psg.Condensation.{released}
use icsa_dswp.Cdg
use icsa_dswp.DecoupleLoops
use icsa_dswp.Tests.Samples.{
  small, shift, psg_small, sample, sample_loops, decouple_start, decouple_end, diamond,
}

-- TestKosaraju.cpp, with the addresses 1 to 8 for the eight integers.
abbrev kosaraju : DependenceGraph
kosaraju = record {
  nodes =
      (1, 2 ∷ [])
      ∷ (2, 1 ∷ 3 ∷ [])
      ∷ (3, 4 ∷ [])
      ∷ (4, 5 ∷ [])
      ∷ (5, 6 ∷ [])
      ∷ (6, 7 ∷ [])
      ∷ (7, 8 ∷ [])
      ∷ (8, 6 ∷ [])
      ∷ [];
}

kosaraju_test :
    find_scc kosaraju
    ≡ ok ((1, 1) ∷ (2, 1) ∷ (3, 3) ∷ (4, 4) ∷ (5, 5) ∷ (6, 6) ∷ (7, 6) ∷ (8, 6) ∷ [])
unfolding find_scc
kosaraju_test = refl

-- The set of the root `r` is at the address `r + 100`; an entry of an earlier function is left.
pub psg_small_runs : run_on_function shift small (released ((9, 7) ∷ [])) ≡ ok psg_small
unfolding run_on_function
psg_small_runs = refl

-- The loop of the sample has one iterator, the cycle, and one work component.
pub decouple_runs :
    DecoupleLoops.run_on_function (ok 77) sample 900 700 600 psg_small sample_loops decouple_start
    ≡ ok decouple_end
unfolding DecoupleLoops.run_on_function
decouple_runs = refl

-- 3 → 1, 3 → 2, 2 → 1, and 4 alone
topsort_runs :
    topsort (record { nodes = (1, []) ∷ (2, 1 ∷ []) ∷ (3, 1 ∷ 2 ∷ []) ∷ (4, []) ∷ [] })
    ≡ ok (3 ∷ 4 ∷ 2 ∷ 1 ∷ [])
unfolding topsort
topsort_runs = refl

-- The nodes that a cycle reaches are left out.
topsort_cycle : topsort kosaraju ≡ ok []
unfolding topsort
topsort_cycle = refl

-- The two branches depend on the block that branches.
cdg_runs :
    Cdg.run_on_function diamond empty
    ≡ ok (record { nodes = (1, 2 ∷ 3 ∷ []) ∷ (2, []) ∷ (3, []) ∷ (4, []) ∷ [] })
unfolding Cdg.run_on_function
cdg_runs = refl
