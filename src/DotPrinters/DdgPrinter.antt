-- ===== src/DotPrinters/DdgPrinter.antt =====
-- pass/src/DDGPrinter.cpp
use Prim.Native.String.{◌++◌ as ◌<>◌}
use icsa_dswp.Outcome.{Outcome, ◌>>=◌}
use icsa_dswp.Dependence.{DependenceGraph}
use icsa_dswp.DependenceTraits.{Written, wrap, write_to_file}
use icsa_dswp.Util.{instruction_to_function_name}
use icsa_dswp.DotPrinters.{Environment, first_node}
use icsa_dswp.DotPrinters.InstTraits

-- `DDGPrinter::runOnFunction`, on the graph of the pass
unfoldable pub run_on_function : Environment → DependenceGraph → Outcome Written
unfolding instruction_to_function_name wrap write_to_file
run_on_function env g = do
  first ← first_node g
  let name = instruction_to_function_name env.parents first
  write_to_file env.can_open (env.write_graph (InstTraits.traits env)) ("ddg." <> name <> ".dot")
      (wrap g)
