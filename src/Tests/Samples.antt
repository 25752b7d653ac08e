-- ===== src/Tests/Samples.antt =====
-- Small inputs: a graph with a cycle of two nodes that a third one depends on, and a function.
use icsa_dswp.Prelude.{
  ◌+◌, ◌≡◌, refl, true, false, none, [], ◌∷◌, arith, ◌==◌, if◌then◌else◌, contains,
}
use icsa_dswp.Std.{Ptr}
use icsa_dswp.Std.PtrMap
use icsa_dswp.Dependence.{DependenceGraph, has_node, IsClosed}
use icsa_dswp.Dependence.Order.{IsOrdered}
use icsa_dswp.Psg.{Pass}
use icsa_dswp.Ir.{Function, LoopInfo, instruction, other}
use icsa_dswp.Cdg.{PostDominatorTree, dom_node, no_nodes, and_node}
use icsa_dswp.DecoupleLoops
use icsa_dswp.DecoupleLoops.Homes.{AreKnown}

-- 1 → 2, 2 → 1, 2 → 3
abbrev pub small : DependenceGraph
small = record { nodes = (1, 2 ∷ []) ∷ (2, 1 ∷ 3 ∷ []) ∷ (3, []) ∷ [] }

pub small-IsOrdered : IsOrdered small
small-IsOrdered = record { keys = omega arith; sets = omega arith }

pub small-IsClosed : IsClosed small
unfolding PtrMap.find
small-IsClosed a b e = ground arith

pub small_proper : has_node small 0 ≡ false
unfolding PtrMap.find
small_proper = refl

-- The allocator of a run of the component graph pass, and what the run leaves.
abbrev pub shift : Ptr → Ptr
shift r = r + 100

abbrev pub psg_small : Pass
psg_small = record {
  sccs = (1, 1 ∷ 2 ∷ []) ∷ (3, 3 ∷ []) ∷ [];
  psg = record { nodes = (101, 103 ∷ []) ∷ (103, []) ∷ [] };
  inst_to_scc = (1, 101) ∷ (2, 101) ∷ (3, 103) ∷ (9, 7) ∷ [];
}

-- `1: a = ...; 2: store a; 3: b = load; br` in one block 100 of three instructions
abbrev pub sample : Function
sample = record {
  insts = 1 ∷ 2 ∷ 3 ∷ [];
  users = λ n. if n == 1 then instruction 2 ∷ other ∷ [] else [];
  may_access_memory = λ n. n == 2;
  dependency = λ n. record { inst = if n == 2 then 1 else 0; is_def = n == 2 };
  block_insts = λ b. if b == 100 then 1 ∷ 2 ∷ 3 ∷ [] else [];
  back = λ b. if b == 100 then 3 else 0;
  phi = λ n. none;
}

-- the block 100 as the one block of a loop
abbrev pub sample_loops : LoopInfo
sample_loops = record { loops = 500 ∷ []; blocks = λ l. if l == 500 then 100 ∷ [] else [] }

-- the state of the decoupling pass before its first run, and after the run on the loop
abbrev pub decouple_start : DecoupleLoops.Pass
decouple_start = record { li = []; loop_to_iter_scc = []; loop_to_work_scc = []; psgp = 0 }

abbrev pub decouple_end : DecoupleLoops.Pass
decouple_end = record {
  li = (900, 600) ∷ [];
  loop_to_iter_scc = (500, 101 ∷ []) ∷ [];
  loop_to_work_scc = (500, 103 ∷ []) ∷ [];
  psgp = 700;
}

-- the component graph pass and the loops where they stand
abbrev pub memory : DecoupleLoops.Memory
memory = record { psg_at = λ a. psg_small; loops_at = λ a. sample_loops }

pub psg_small-IsOrdered : IsOrdered psg_small.psg
psg_small-IsOrdered = record { keys = omega arith; sets = omega arith }

pub psg_small-IsClosed : IsClosed psg_small.psg
unfolding PtrMap.find
psg_small-IsClosed a b e = ground arith

pub loops_inside :
    (l b i : Ptr)
    → contains sample_loops.loops l ≡ true
    → contains (sample_loops.blocks l) b ≡ true
    → contains (sample.block_insts b) i ≡ true
    → has_node small i ≡ true
unfolding PtrMap.find
loops_inside l b i hl hb hi = ground arith

pub loops_known : AreKnown sample psg_small sample_loops
unfolding PtrMap.find
loops_known l b i hl hb hi = ground arith

-- The block 1 branches to 2 and 3, which join in 4.
abbrev pub diamond : PostDominatorTree
diamond = record {
  root = dom_node 14 4 (
      and_node (dom_node 11 1 no_nodes)
        (and_node (dom_node 12 2 no_nodes) (and_node (dom_node 13 3 no_nodes) no_nodes)));
  idom = λ b. if b == 4 then 0 else 14;
  preds = λ b. if b == 4 then 2 ∷ 3 ∷ [] else if b == 1 then [] else 1 ∷ [];
}

-- The block 1 branches to 2 and 3, and 2 to the exit 3.
abbrev pub triangle : PostDominatorTree
triangle = record {
  root =
      dom_node 13 3
        (and_node (dom_node 11 1 no_nodes) (and_node (dom_node 12 2 no_nodes) no_nodes));
  idom = λ b. if b == 3 then 0 else 13;
  preds = λ b. if b == 3 then 1 ∷ 2 ∷ [] else if b == 2 then 1 ∷ [] else [];
}
