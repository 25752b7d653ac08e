-- ===== src/DotPrinters/PsgPrinter.antt =====
-- pass/src/PSGPrinter.cpp
use Prim.Native.String.{◌++◌ as ◌<>◌}
use icsa_dswp.Std.{Ptr}
use icsa_dswp.Outcome.{Outcome, ◌>>=◌}
use icsa_dswp.DependenceTraits.{Written, wrap, write_to_file}
use icsa_dswp.Util.{instruction_to_function_name}
use icsa_dswp.Psg
use icsa_dswp.SourceToPsgPrinter.{first_inst}
use icsa_dswp.DotPrinters.{Environment}
use icsa_dswp.DotPrinters.InstSetTraits

-- `PSGPrinter::runOnFunction`
unfoldable pub run_on_function : (Ptr → Ptr) → Environment → Psg.Pass → Outcome Written
unfolding first_inst instruction_to_function_name wrap write_to_file
run_on_function address env psg = do
  inst ← first_inst address psg
  let name = instruction_to_function_name env.parents inst
  write_to_file env.can_open (env.write_graph (InstSetTraits.traits address psg env))
      ("psg." <> name <> ".dot") (wrap psg.psg)
