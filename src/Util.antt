-- ===== src/Util.antt =====
-- pass/src/Util.cpp: the name of the function that an instruction or a block stands in. The parents
-- and names are LLVM's, and so an argument.
use Prim.Native.String.{String}
use icsa_dswp.Prelude.{◌==◌, if◌then◌else◌}
use icsa_dswp.Std.{Ptr, nullptr}

pub record Parents : Type 0 where
  -- `Inst.getParent()`, which may be null
  pub block : Ptr → Ptr
  -- `BB.getParent()`, which may be null
  pub function : Ptr → Ptr
  -- `Func->getName()`
  pub name : Ptr → String

module _ (parents : Parents) where
  -- `basicBlockToFunctionName`
  unfoldable pub basic_block_to_function_name : Ptr → String
  basic_block_to_function_name block =
      let func = parents.function block in if func == nullptr then "unknown" else parents.name func

  -- `instructionToFunctionName`
  unfoldable pub instruction_to_function_name : Ptr → String
  unfolding basic_block_to_function_name
  instruction_to_function_name inst =
      let block = parents.block inst in
      if block == nullptr then "unknown" else basic_block_to_function_name block
