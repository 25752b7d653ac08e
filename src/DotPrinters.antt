-- ===== src/DotPrinters.antt =====
-- The passes that write a dependence graph in the DOT language, and what they tell LLVM's graph
-- writer about it: pass/src/DDGPrinter.cpp, MDGPrinter.cpp, CDGPrinter.cpp, PDGPrinter.cpp and
-- PSGPrinter.cpp, pass/include/InstDOTTraits.h, InstSetDOTTraits.h and BasicBlockDOTTraits.h.
-- LLVM's `WriteGraph` and how an instruction or a block is printed are arguments.
pub mod InstTraits
pub mod BlockTraits
pub mod InstSetTraits
pub mod DdgPrinter
pub mod MdgPrinter
pub mod CdgPrinter
pub mod PdgPrinter
pub mod PsgPrinter
use Prim.Native.String.{String}
use icsa_dswp.Prelude.{Bool, [], ◌∷◌}
use icsa_dswp.Std.{Ptr}
use icsa_dswp.Outcome.{Outcome, ok, err, bad_dereference}
use icsa_dswp.Dependence.{DependenceGraph}
use icsa_dswp.DependenceTraits.{Wrapper, DotTraits}
use icsa_dswp.Output.{Stream}
use icsa_dswp.Util.{Parents}

-- what the printers take from LLVM and from the system
pub record Environment : Type 0 where
  pub parents : Parents
  -- `Inst->print(roos)`
  pub print_inst : Ptr → String
  -- `FT.getNodeLabel(BB, F)`
  pub label_block : Ptr → Ptr → String
  -- whether `raw_fd_ostream` opens the file
  pub can_open : String → Bool
  -- `WriteGraph(File, W)`
  pub write_graph : DotTraits → Wrapper → Outcome Stream

-- `G.nodes_begin()->first`
abbrev pub first_node : DependenceGraph → Outcome Ptr
first_node g = elim g.nodes [ [] ↦ err bad_dereference | (n, s) ∷ m ↦ ok n ]
