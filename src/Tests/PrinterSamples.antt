-- ===== src/Tests/PrinterSamples.antt =====
-- Small inputs of the printers: debug information, and what LLVM and the system answer.
use icsa_dswp.Prelude.{◌≡◌, contains, refl, true, none, some, [], ◌∷◌, arith, ◌==◌, if◌then◌else◌}
use icsa_dswp.Std.{Ptr}
use icsa_dswp.Std.PtrMap
use icsa_dswp.Outcome.{ok, ◌>>=◌}
use icsa_dswp.Dependence.{empty}
use icsa_dswp.Cdg.{PostDominatorTree, dom_node, no_nodes}
use icsa_dswp.DecoupleLoops
use icsa_dswp.DecoupleLoops.Ready.{IsReady, ready_lem}
use icsa_dswp.Debug.{File, DebugInfo}
use icsa_dswp.Output.{text}
use icsa_dswp.Util.{Parents}
use icsa_dswp.DotPrinters.{Environment}
use icsa_dswp.Passes.{Analyses}
use icsa_dswp.Cdg.Frontier.{blocks}
use icsa_dswp.Cdg.Control.{at_exit, along, PostDominates, IsPostDominatorTree}
use icsa_dswp.Passes.Contract.{IsFunction}
use icsa_dswp.Tests.Samples.{
  memory, psg_small, sample, sample_loops, decouple_start, decouple_end, psg_small-IsOrdered,
  psg_small-IsClosed, loops_known,
}
use icsa_dswp.Tests.Graphs.{decouple_runs}

abbrev pub source_file : File
source_file = record { name = ""; filename = "main.c"; directory = "/home" }

-- The instruction 2 has no location; 1 and 3 are on the lines 8 and 10.
abbrev pub debug : DebugInfo
debug = record {
  location = λ i.
      if i == 2
      then none
      else some (record { file = source_file; line = if i == 1 then 8 else 10; column = i });
  is_branch = λ i. i == 3;
}

abbrev pub parents : Parents
parents = record { block = λ i. 100; function = λ b. 900; name = λ f. "main" }

-- The graph writer of the sample writes the title only.
abbrev pub environment : Environment
environment = record {
  parents = parents;
  print_inst = λ i. "inst";
  label_block = λ b f. "block";
  can_open = λ f. true;
  write_graph = λ t w. (do title ← t.get_graph_name w; ok (text title ∷ []));
}

pub ready : IsReady memory decouple_end sample 900 sample_loops
unfolding DecoupleLoops.release_memory
ready =
    ready_lem (ok 77) sample 900 700 600 psg_small sample_loops psg_small-IsOrdered
      psg_small-IsClosed loops_known (λ s node out. (77, refl)) decouple_start decouple_end
      decouple_runs memory refl refl

-- the sample's one block as its post-dominator tree
abbrev pub one_block : PostDominatorTree
one_block = record { root = dom_node 10 100 no_nodes; idom = λ b. 0; preds = λ b. [] }

-- Every path of one block runs through it.
one_block_stuck :
    (y z : Ptr)
    → contains (blocks one_block.root) y ≡ true
    → contains (blocks one_block.root) z ≡ true
    → PostDominates one_block (λ b. b == 100) y z
one_block_stuck y z iy iz (at_exit e apart) = ground (arith, iy, iz, apart)
one_block_stuck y z iy iz (along apart edge rest) = ground (arith, iy, iz, apart)

one_block-IsPostDominatorTree : IsPostDominatorTree one_block (λ b. b == 100)
one_block-IsPostDominatorTree = record {
  unique = (refl, tt);
  rooted = refl;
  nodes_unique = (refl, tt);
  nodes_real = refl;
  parents = tt;
  top = refl;
  virtual = refl;
  dominance = λ y z iy iz ry rz. (λ a. one_block_stuck y z iy iz, λ p. ground (arith, iy, iz));
}

pub sample-IsFunction : IsFunction sample one_block sample_loops (λ b. b == 100) (λ b. b == 100)
unfolding PtrMap.find
sample-IsFunction = record {
  proper = refl;
  users = λ x y h k. ground arith;
  dependencies = λ x y h k. ground arith;
  backs = λ b h. ground arith;
  members = λ b i h k. ground arith;
  constants = λ x y h. ground arith;
  post = one_block-IsPostDominatorTree;
  tree = λ b h k. ground arith;
  preds = λ c b h k. ground arith;
  in_loops = λ l b h k. ground arith;
}

-- the passes before their first function, but for an entry that an earlier one left
abbrev pub fresh : Analyses
fresh = record {
  ddg = empty;
  mdg = empty;
  cdg = empty;
  pdg = empty;
  psg = record { sccs = []; psg = empty; inst_to_scc = (9, 7) ∷ [] };
  loops = decouple_start;
}
