-- ===== src/Tests/Witnesses.antt =====
-- The theorems at concrete inputs.
use icsa_dswp.Prelude.{
  ◌≡◌, ◌↔◌, refl, Bool, true, false, ◌&&◌, ◌||◌, some, List, [], ◌∷◌, arith, contains, ◌==◌,
  if◌then◌else◌,
}
use icsa_dswp.Std.{Ptr}
use icsa_dswp.Std.PtrMap
use icsa_dswp.Std.PtrMap.{PtrMap}
use icsa_dswp.Outcome.{ok, err, bad_dereference, for_each}
use icsa_dswp.Dependence.{DependenceGraph, empty, has_node, has_edge, IsClosed}
use icsa_dswp.Dependence.Order.{IsOrdered, empty-IsOrdered}
use icsa_dswp.Dependence.Refinement.{
  Call, adding_edge, asking, removing_edge, removing_node, perform, Session, nothing, specify_all,
  Follows, Agrees, history-Agrees,
}
use icsa_dswp.GraphUtils.{
  Enumeration, post_order_enumerate, assign_component, find_scc, transpose, topsort,
}
use icsa_dswp.GraphUtils.Walk.{Reach, Strong, here, step}
use icsa_dswp.GraphUtils.PostOrder.{Explores, post_order_enumerate_lem}
use icsa_dswp.GraphUtils.Component.{Assigns, assign_component_lem}
use icsa_dswp.GraphUtils.Transpose.{transpose_lem}
use icsa_dswp.GraphUtils.Kosaraju.{IsComponents, find_scc_lem}
use icsa_dswp.GraphUtils.Topsort.{IsTopologicalOrder, topsort_lem}
use icsa_dswp.Ir.{Function, LoopInfo, has_user}
use icsa_dswp.Ddg.Edges.{ddg, ddg_lem}
use icsa_dswp.Mdg.Edges.{mdg, defines, mdg_lem}
use icsa_dswp.Pdg.Edges.{pdg, Controls, Depends, pdg_lem}
use icsa_dswp.Pdg.Nodes.{AreInside, pdg_nodes}
use icsa_dswp.Psg.{Pass, run_on_function, get_scc}
use icsa_dswp.Psg.Condensation.{IsCondensation, released, psg_lem}
use icsa_dswp.Psg.Acyclic.{psg_acyclic, get_scc_lem}
use icsa_dswp.Cdg
use icsa_dswp.Cdg.Traversal.{post_order, get_bottom_up_traversal_lem}
use icsa_dswp.DecoupleLoops
use icsa_dswp.DecoupleLoops.Homes.{AreKnown, home}
use icsa_dswp.DecoupleLoops.Decoupled.{IsWork, past_end_lem}
use icsa_dswp.DecoupleLoops.Queries.{queries_lem}
use icsa_dswp.DecoupleLoops.Pipeline.{Feeds, is_work_lem}
use icsa_dswp.Tests.Samples.{
  memory, small, small-IsOrdered, small-IsClosed, small_proper, shift, psg_small, sample,
  sample_loops, diamond, decouple_start, decouple_end, psg_small-IsOrdered, psg_small-IsClosed,
  loops_known,
}
use icsa_dswp.Tests.Graphs.{psg_small_runs, decouple_runs}

find_scc_lem_example :
    (component : PtrMap Ptr) × (find_scc small ≡ ok component) × IsComponents small component
find_scc_lem_example = find_scc_lem small small-IsOrdered small-IsClosed small_proper

psg_lem_example :
    (component : PtrMap Ptr) × (q : Pass) × (find_scc small ≡ ok component)
    × IsComponents small component
    × (run_on_function shift small (released ((9, 7) ∷ [])) ≡ ok q)
    × IsCondensation shift small component q
psg_lem_example = psg_lem shift small small-IsOrdered small-IsClosed small_proper ((9, 7) ∷ [])

shift-AreDistinct : (r s : Ptr) → shift r ≡ shift s → r ≡ s
shift-AreDistinct r s e = omega arith

psg_acyclic_example : ¬ Reach psg_small.psg 103 101
unfolding PtrMap.find
psg_acyclic_example =
    psg_acyclic shift small small-IsOrdered small-IsClosed small_proper ((9, 7) ∷ []) psg_small
      shift-AreDistinct psg_small_runs 101 103 refl (step (here refl) refl refl) (omega arith)

get_scc_lem_example : (get_scc psg_small 1 ≡ get_scc psg_small 2) ↔ Strong small 1 2
unfolding PtrMap.find
get_scc_lem_example =
    get_scc_lem shift small small-IsOrdered small-IsClosed small_proper ((9, 7) ∷ []) psg_small
      shift-AreDistinct psg_small_runs 1 2 refl refl

abbrev opened : Session
opened = record { graph = empty; answers = [] }

opened-Follows : Follows opened nothing
unfolding PtrMap.find
opened-Follows = record {
  ordered = empty-IsOrdered;
  nodes = λ n. refl;
  edges = λ x y. refl;
  answers = refl;
}

abbrev calls : List Call
calls =
    adding_edge 1 2
    ∷ asking 1 2
    ∷ asking 2 1
    ∷ asking 3 1
    ∷ removing_node 2
    ∷ removing_edge 2 1
    ∷ []

history-Agrees_example : Agrees (for_each perform calls opened) (specify_all calls nothing)
history-Agrees_example = history-Agrees calls opened nothing opened-Follows

transpose_lem_example :
    ((n : Ptr) → has_node (transpose small) n ≡ has_node small n)
    × ((x y : Ptr) → has_edge (transpose small) x y ≡ has_edge small y x)
    × IsOrdered (transpose small)
    × IsClosed (transpose small)
transpose_lem_example = transpose_lem small small-IsOrdered small-IsClosed

abbrev unvisited : Enumeration
unvisited = record { visited = []; result = [] }

post_order_enumerate_lem_example :
    Explores small small-IsClosed (post_order_enumerate small 4 1 unvisited) unvisited (1 ∷ [])
unfolding PtrMap.find
post_order_enumerate_lem_example =
    post_order_enumerate_lem small small-IsClosed 4 1 unvisited refl (omega arith)

assign_component_lem_example :
    Assigns small small-IsClosed 1 (λ e. omega arith) (assign_component small 4 1 1 []) [] (1 ∷ [])
unfolding PtrMap.find
assign_component_lem_example =
    assign_component_lem small small-IsClosed 1 (λ e. omega arith) 4 1 [] refl (omega arith)

ddg_lem_example :
    ((n : Ptr) → has_node (ddg sample) n ≡ contains sample.insts n)
    × ((x y : Ptr)
        → has_edge (ddg sample) x y ≡ (contains sample.insts x && has_user (sample.users x) y))
    × IsOrdered (ddg sample)
    × IsClosed (ddg sample)
ddg_lem_example = ddg_lem sample (λ x y h u. ground arith)

mdg_lem_example :
    ((n : Ptr) → has_node (mdg sample) n ≡ contains sample.insts n)
    × ((x y : Ptr) → has_edge (mdg sample) x y ≡ (contains sample.insts y && defines sample x y))
    × IsOrdered (mdg sample)
    × IsClosed (mdg sample)
mdg_lem_example = mdg_lem sample (λ x y h d. ground arith)

-- the block 100 depends on itself
abbrev loop_cdg : DependenceGraph
loop_cdg = record { nodes = (100, 100 ∷ []) ∷ [] }

loop_cdg-IsOrdered : IsOrdered loop_cdg
loop_cdg-IsOrdered = record { keys = omega arith; sets = omega arith }

pdg_lem_example :
    (has_edge
        (pdg sample loop_cdg small small loop_cdg-IsOrdered small-IsOrdered small-IsOrdered)
        3
        1
      ≡ true)
    ↔ Depends sample loop_cdg small small 3 1
pdg_lem_example =
    pdg_lem sample loop_cdg small small loop_cdg-IsOrdered small-IsOrdered small-IsOrdered 3 1

loop_branches : (x y : Ptr) → Controls sample loop_cdg x y → has_node small x ≡ true
unfolding PtrMap.find
loop_branches x y c = ground (arith, c.edge, c.branch)

loop_members : (x y : Ptr) → Controls sample loop_cdg x y → has_node small y ≡ true
unfolding PtrMap.find
loop_members x y c = ground (arith, c.edge, c.member)

sample-AreInside : AreInside sample loop_cdg small small
unfolding PtrMap.find
sample-AreInside = record {
  ddg_closed = small-IsClosed;
  mdg_closed = small-IsClosed;
  same_nodes = λ n. refl;
  branches = loop_branches;
  members = loop_members;
  constants = λ x y c. cc;
}

pdg_nodes_example :
    ((n : Ptr)
      → has_node
          (pdg sample loop_cdg small small loop_cdg-IsOrdered small-IsOrdered small-IsOrdered)
          n
        ≡ has_node small n)
    × IsClosed (pdg sample loop_cdg small small loop_cdg-IsOrdered small-IsOrdered small-IsOrdered)
pdg_nodes_example =
    pdg_nodes sample loop_cdg small small loop_cdg-IsOrdered small-IsOrdered small-IsOrdered
      sample-AreInside

queries_lem_example :
    (work iter : Bool) × (DecoupleLoops.is_work memory decouple_end 3 500 ≡ ok work)
    × (DecoupleLoops.is_iter memory decouple_end 3 500 ≡ ok iter)
    × (work && iter ≡ false)
    × ((work || iter ≡ true) ↔ (home sample psg_small sample_loops 103 ≡ some 500))
    × ((work ≡ true) ↔ IsWork psg_small.psg (home sample psg_small sample_loops) 500 103)
unfolding get_scc PtrMap.at DecoupleLoops.release_memory
queries_lem_example =
    queries_lem (ok 77) sample 900 700 600 psg_small sample_loops psg_small-IsOrdered
      psg_small-IsClosed loops_known (λ s node out. (77, refl)) decouple_start decouple_end
      decouple_runs memory 3 103 500 refl refl

-- Of the three instructions only the third one is in the loop.
abbrev outer : Function
outer = record sample {
  block_insts = λ b. if b == 100 then 1 ∷ 2 ∷ [] else if b == 101 then 3 ∷ [] else [];
}

abbrev outer_loops : LoopInfo
outer_loops = record { loops = 500 ∷ []; blocks = λ l. if l == 500 then 101 ∷ [] else [] }

outer_inside :
    (l b i : Ptr)
    → contains outer_loops.loops l ≡ true
    → contains (outer_loops.blocks l) b ≡ true
    → contains (outer.block_insts b) i ≡ true
    → has_node small i ≡ true
unfolding PtrMap.find
outer_inside l b i hl hb hi = ground arith

outer-AreKnown : AreKnown outer psg_small outer_loops
unfolding PtrMap.find
outer-AreKnown l b i hl hb hi = ground arith

is_work_lem_example :
    (d : DecoupleLoops.Pass) × (DecoupleLoops.run_on_function
        (ok 77)
        outer
        900
        700
        600
        psg_small
        outer_loops
        (DecoupleLoops.release_memory decouple_start)
      ≡ ok d)
    × ((DecoupleLoops.is_work memory d 3 500 ≡ ok true)
        ↔ Feeds small psg_small (home outer psg_small outer_loops) 500 3)
unfolding get_scc PtrMap.at
is_work_lem_example =
    is_work_lem shift small small-IsOrdered small-IsClosed small_proper ((9, 7) ∷ []) psg_small
      shift-AreDistinct psg_small_runs outer 900 700 600 outer_loops outer_inside decouple_start
      (ok 77) memory 500 3 103 refl (λ s node out. (77, refl)) refl refl refl

past_end_lem_example :
    DecoupleLoops.run_on_function
      (err bad_dereference)
      outer
      900
      700
      600
      psg_small
      outer_loops
      decouple_start
    ≡ err bad_dereference
unfolding get_scc PtrMap.find
past_end_lem_example =
    past_end_lem bad_dereference outer 900 700 600 psg_small outer_loops psg_small-IsOrdered
      psg_small-IsClosed outer-AreKnown decouple_start 101 refl refl

topsort_lem_example : (l : List Ptr) × (topsort small ≡ ok l) × IsTopologicalOrder small l
topsort_lem_example = topsort_lem small small-IsOrdered small-IsClosed

get_bottom_up_traversal_lem_example :
    Cdg.get_bottom_up_traversal diamond ≡ ok (post_order diamond.root)
get_bottom_up_traversal_lem_example = get_bottom_up_traversal_lem diamond
