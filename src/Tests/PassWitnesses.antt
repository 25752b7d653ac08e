-- ===== src/Tests/PassWitnesses.antt =====
-- The theorems on all passes, the traits and the report at concrete inputs.
use Prim.Native.String.{◌++◌ as ◌<>◌}
use icsa_dswp.Prelude.{
  ◌<◌, ◌≡◌, refl, none, some, List, [], ◌∷◌, contains, length, IsUnique, arith, ◌==◌,
}
use icsa_dswp.Std.{Ptr}
use icsa_dswp.Std.PtrMap
use icsa_dswp.Std.Cursor.{Cursor}
use icsa_dswp.Outcome.{ok}
use icsa_dswp.Dependence.{has_node}
use icsa_dswp.GraphUtils.{topsort}
use icsa_dswp.GraphUtils.Walk.{Strong}
use icsa_dswp.GraphUtils.Topsort.Rounds.{IsTopsorted}
use icsa_dswp.GraphUtils.Topsort.Acyclic.{topsort_no_cycle}
use icsa_dswp.Psg.{get_scc}
use icsa_dswp.Psg.Acyclic.{AreDistinct, get_scc_lem}
use icsa_dswp.DependenceTraits.{Node, Wrapper, wrap, nodes_begin}
use icsa_dswp.DependenceTraits.NodeIterator
use icsa_dswp.DependenceTraits.ChildIterator
use icsa_dswp.DependenceTraits.Walk.{read_nodes}
use icsa_dswp.DependenceTraits.ReadBack.{read_nodes-wrap}
use icsa_dswp.DependenceTraits.Steps.{steps_lem, dangling_lem}
use icsa_dswp.Passes.{Analyses, run, release_memory}
use icsa_dswp.Passes.Contract.{IsAnalysed}
use icsa_dswp.Passes.Whole.{run_lem}
use icsa_dswp.SourceToPsgPrinter
use icsa_dswp.SourceToPsgPrinter.{first_inst, index_of}
use icsa_dswp.SourceToPsgPrinter.Ranks.{rank_lem, psg-IsAcyclic}
use icsa_dswp.Tests.Samples.{
  small, small-IsOrdered, small-IsClosed, small_proper, shift, psg_small, psg_small-IsOrdered,
  psg_small-IsClosed, sample, sample_loops,
}
use icsa_dswp.Tests.Graphs.{psg_small_runs}
use icsa_dswp.Tests.PrinterSamples.{one_block, sample-IsFunction, fresh}

shift_distinct : AreDistinct shift
shift_distinct r s e = omega arith

run_lem_example :
    (r : Analyses) × (run shift
        (ok 77)
        sample
        900
        700
        600
        one_block
        sample_loops
        (release_memory fresh)
      ≡ ok r)
    × IsAnalysed sample one_block (λ b. b == 100) sample_loops r
run_lem_example =
    run_lem shift shift_distinct 77 sample 900 700 600 one_block sample_loops (λ b. b == 100)
      (λ b. b == 100) sample-IsFunction fresh

-- Nothing leads back from the component of the third instruction.
small_apart : ¬ Strong small 2 3
unfolding get_scc PtrMap.find
small_apart both =
    let same : get_scc psg_small 2 ≡ get_scc psg_small 3 =
      (get_scc_lem shift small small-IsOrdered small-IsClosed small_proper ((9, 7) ∷ []) psg_small
          shift_distinct psg_small_runs 2 3 refl refl).1
        both in
    absurd (ground (arith, same))

rank_lem_example :
    (ts : List Ptr) × (s : Ptr) × (t : Ptr) × (topsort psg_small.psg ≡ ok ts)
    × (get_scc psg_small 2 ≡ ok s)
    × (get_scc psg_small 3 ≡ ok t)
    × (index_of ts s < index_of ts t)
    × (index_of ts t < length ts)
unfolding PtrMap.find
rank_lem_example =
    rank_lem shift small small-IsOrdered small-IsClosed small_proper ((9, 7) ∷ []) psg_small
      shift_distinct psg_small_runs 2 3 refl small_apart

topsort_no_cycle_example :
    (l : List Ptr) × (topsort psg_small.psg ≡ ok l)
    × ((m : Ptr) → contains l m ≡ has_node psg_small.psg m)
    × IsUnique l
    × IsTopsorted psg_small.psg [] l
topsort_no_cycle_example = topsort_no_cycle psg_small.psg psg_small-IsOrdered psg_small-IsClosed (
    psg-IsAcyclic shift small small-IsOrdered small-IsClosed small_proper ((9, 7) ∷ []) psg_small
      shift_distinct psg_small_runs)

read_nodes-wrap_example :
    read_nodes (length small.nodes) (nodes_begin (wrap small)) (wrap small)
    ≡ ok (wrap small, small.nodes)
read_nodes-wrap_example = read_nodes-wrap small small-IsOrdered small-IsClosed

abbrev node : Node
node = record { value = 2; children = 1 ∷ 3 ∷ [] }

steps_lem_example :
    ((y : Cursor) × (NodeIterator.post_increment (wrap small) (some 2) ≡ ok (some 2, y))
      × (NodeIterator.post_decrement (wrap small) y ≡ ok (y, some 2)))
    × ((y : Cursor) × (ChildIterator.post_increment node (some 1) ≡ ok (some 1, y))
        × (ChildIterator.post_decrement node y ≡ ok (y, some 1)))
unfolding PtrMap.find
steps_lem_example = steps_lem small 2 node 1 small-IsOrdered refl (omega arith) refl

dangling_lem_example :
    (w : Wrapper) × (ChildIterator.dereference (wrap small) (some 5) ≡ ok (w, none))
    × (NodeIterator.dereference w (some 5) ≡ ok none)
    × (NodeIterator.dereference w (some 3) ≡ NodeIterator.dereference (wrap small) (some 3))
unfolding PtrMap.find
dangling_lem_example = dangling_lem small 5 3 small-IsOrdered refl refl
