-- ===== src/Mdg.antt =====
-- pass/src/MDG.cpp: the memory dependence graph, from LLVM's memory dependence analysis.
pub mod Edges
use icsa_dswp.Prelude.{true, false, not, ◌&&◌, List, [], ◌∷◌, ◌==◌, if◌then◌else◌}
use icsa_dswp.Std.{Ptr, nullptr}
use icsa_dswp.Dependence.{DependenceGraph, add_edge}
use icsa_dswp.Ir.{Function}
use icsa_dswp.Ddg.{add_insts}

-- the body of the second loop of `runOnFunction`
unfoldable pub add_dependency : Function → Ptr → DependenceGraph → DependenceGraph
unfolding add_edge
add_dependency f inst g =
    if not (f.may_access_memory inst)
    then g
    else let mdr = f.dependency inst in
      if not (mdr.inst == nullptr) && mdr.is_def then add_edge mdr.inst inst g else g

unfoldable pub add_dependencies : Function → List Ptr → DependenceGraph → DependenceGraph
unfolding add_dependency
add_dependencies f [] g = g
add_dependencies f (i ∷ is) g = add_dependencies f is (add_dependency f i g)

-- `MemoryDependenceGraphPass::runOnFunction`: the new value of `MDG`.
unfoldable pub run_on_function : Function → DependenceGraph → DependenceGraph
unfolding add_insts add_dependencies
run_on_function f mdg = add_dependencies f f.insts (add_insts f.insts mdg)
