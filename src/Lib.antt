-- ===== src/Lib.antt =====
-- The LLVM passes of this repository split the loops of a program into threads (decoupled software
-- pipelining). They build dependence graphs over the instructions of a function, merge them into
-- the program dependence graph, and find its strongly connected components, between which a loop
-- can be cut.
--
-- - pass/include/Dependence.h, `DependenceGraph`: Dependence.antt. A graph is a `std::map` from a
--   node's address to the `std::set` of its dependants. Addresses are numbers, the null pointer is
--   0; a map is the list of its entries and a set the list of its elements in ascending order
--   (Std/PtrMap.antt, Std/PtrSet.antt), which is the order in which the loops run. `operator[]`
--   inserts what is missing, `at` throws, which is the error `out_of_range` of Outcome.antt.
--   `Nodes.at(A)` behind `getDependants` and `child_begin` is `get_dependants`. Dependence/Laws
--   has what each operation does to nodes and edges, Dependence/Order that each keeps the order,
--   Dependence/Refinement the abstract graph.
-- - pass/include/GraphUtils.h: GraphUtils.antt, with `transpose`, `postOrderEnumerate`,
--   `assignComponent`, `findSCC` and `topsort`. What the two recursive functions take by reference
--   is passed and returned. They recurse on fuel, which bounds the nested calls: `find_scc` gives
--   one more than there are nodes, and that is enough, since each call that recurses first marks a
--   node. The loop of `topsort` has one unit of fuel for each round, and each round lists a new
--   node. GraphUtils/Walk has walks in a graph, GraphUtils/PostOrder and GraphUtils/Component are
--   about the two depth-first searches, GraphUtils/Kosaraju puts them together, and
--   GraphUtils/Topsort is about the topological sort.
-- - pass/src/DDG.cpp, MDG.cpp and PDG.cpp, `runOnFunction`: Ddg.antt, Mdg.antt and Pdg.antt. LLVM
--   is not part of the repository: the function, its users, the answers of the memory dependence
--   analysis, the blocks and the phi nodes are the record `Function` of Ir.antt, an argument of the
--   passes. A graph is empty before a run because `releaseMemory` cleared it.
-- - pass/src/CDG.cpp: Cdg.antt. LLVM's post-dominator tree is a data type, and with the immediate
--   post-dominators and the predecessors of a block an argument. The loop of
--   `getBottomUpTraversal` has one unit of fuel for each node of the tree. Cdg/Frontier has the
--   frontiers by recursion on the tree, Cdg/Ancestors, Subtrees and Entering what they are by the
--   nodes above a block, Cdg/Parents and Homes what that needs of the tree, and Cdg/Control relates
--   them to the paths of the CFG, by what LLVM promises of its tree. The last two loops of the pass
--   are those of `transpose`, whose definitions they share. A block without a node in the tree,
--   where `getNode` is null, is not modelled.
-- - pass/src/PSG.cpp and pass/include/PSG.h: Psg.antt. It runs `find_scc` on the program dependence
--   graph and makes each component a node. A component is referred to by the address of its set in
--   the map `SCCs`; the allocator chooses it, so the function from a root to that address is a
--   parameter. Psg/Condensation has the whole run, Psg/Acyclic what the later passes rely on.
-- - pass/src/DecoupleLoops.cpp and pass/include/DecoupleLoops.h: DecoupleLoops.antt. LLVM's loops
--   are the record `LoopInfo` of Ir.antt, an argument. DecoupleLoops/Homes has the map from
--   components to loops, DecoupleLoops/Classes and Decoupled the classification,
--   DecoupleLoops/Queries the answers of `isWork`, `isIter` and `hasWork`, and
--   DecoupleLoops/Pipeline both passes together. The code reads through the end iterator of
--   `SccToLoop` before it tests it, and does not use what it read. C++ leaves that read undefined;
--   what it is, a value or an error, is the argument `past_end` of the pass. The pass keeps the
--   addresses of the component graph pass and of the loops; what stands there when a query or a
--   printer follows them is an argument, the record `Memory`, so that a release in between is a
--   change of it.
-- - pass/include/DependenceTraits.h: DependenceTraits.antt, with the wrapper and its two iterators in
--   child modules. An iterator is the key that it stands at, or the end (Std/Cursor.antt), and a
--   step past an end is the error `bad_dereference`, as is a null pointer that is read. A walk over
--   the nodes has one unit of fuel for each node, and one over the children for each child, which
--   is enough for a closed graph. LLVM's `WriteGraph` and the opening of a file are arguments.
-- - pass/src/DDGPrinter.cpp, MDGPrinter.cpp, CDGPrinter.cpp, PDGPrinter.cpp, PSGPrinter.cpp with
--   pass/include/InstDOTTraits.h, InstSetDOTTraits.h, BasicBlockDOTTraits.h: DotPrinters.antt with a
--   child module for each. pass/src/Util.cpp: Util.antt.
-- - pass/src/SourceToPSGPrinter.cpp: SourceToPsgPrinter.antt. Lines has what is collected for a
--   line, Ranks the order of the ranks, Written the whole pass.
-- - pass/src/DecoupleLoopsPrinter.cpp, DecoupleSourceSplitPrinter.cpp and
--   ExampleDecoupleLoopsUser.cpp: the modules of these names. The three use the decoupling pass
--   through DecoupleLoops/Ready, which says what a run of it leaves. The seven vectors of the first
--   one are a list of entries, and its loops have a round for each entry; its child modules Facts
--   and Scanning are about what is collected, Groups and Grouping about what is printed. A line
--   is an `unsigned` or an `int` of 32 bits, -1 is 2 ^ 32 - 1, and how a stream writes a number is
--   left open.
-- - test/pcqueue.cpp: PcQueue.antt has the queue and the numbers, PcQueue/Threads the four threads,
--   each as a function that makes its next step, and `run`, which gives the threads their turns in
--   the order of a schedule. A step is what a thread does under the mutex of a queue, with what it
--   does alone before or after it; `pthread_cond_wait` ends the step, and a thread that is asleep,
--   or joins one that has not returned, cannot move. PcQueue/Places and Links have what a queue
--   holds between two threads, PcQueue/Relays, Stops, Ends and Sums a step of each thread,
--   PcQueue/Running and Invariant the whole state, Progress and Turns the runs. POSIX also
--   lets `pthread_cond_wait` return without a signal: that is an event `wakeup` of its own, and
--   `play` lets the turns and wakeups of a schedule happen in order. PcQueue/Schedules is about
--   schedules without wakeups, PcQueue/Spurious about one with a wakeup. Numbers are natural, and
--   PcQueue/Bounds is about the sizes of them; a negative argument makes no round, as 0 does. Only
--   `i * i` in `is_prime` is kept as an `int` of 32 bits that wraps round.
-- - test/even-fibonacci.cpp: EvenFibonacci.antt, with the bound as an argument. The numbers have 32
--   bits. The fuel is one more than the bound, and each round of the loop makes a term grow.
-- - Debug.antt has what the printers read of LLVM's debug information, Output.antt the pieces of
--   text and numbers that they write. A file that a location names is taken to be there, and the
--   report's file to be opened, which SourceToPSGPrinter.cpp does not test.
-- - LLVM's pass manager runs what a pass requires before the pass. It is not part of the repository;
--   Passes.antt runs the six analyses one after the other, each on the results of those that it
--   requires. Passes/Contract has LLVM's promises about a function and what the analyses promise of
--   their results, Passes/Whole the run.
--
-- Tests/ has small inputs, runs of the code on them, and the theorems applied to them.
--
-- Not modelled: LLVM's own passes, the registration of the passes, `getAnalysisUsage`, `getPassName`
-- and the functions that only return a reference to a member; the other programs under test/, which
-- are inputs of the passes, and the tests of the graph classes.
pub mod Prelude
pub mod Std
pub mod Outcome
pub mod Output
pub mod Debug
pub mod Util
pub mod SourceToPsgPrinter
pub mod DecoupleLoopsPrinter
pub mod DecoupleSourceSplitPrinter
pub mod ExampleDecoupleLoopsUser
pub mod Dependence
pub mod EvenFibonacci
pub mod GraphUtils
pub mod Ir
pub mod Cdg
pub mod Ddg
pub mod Mdg
pub mod Passes
pub mod PcQueue
pub mod Pdg
pub mod Psg
pub mod DecoupleLoops
pub mod Tests
pub mod DependenceTraits
pub mod DotPrinters
