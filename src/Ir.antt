-- ===== src/Ir.antt =====
-- What the passes read from LLVM: the instructions of a function, their users, the answers of
-- LLVM's memory dependence analysis, and basic blocks with their phi nodes. LLVM is not part of
-- the repository, so a function is an argument of the passes, and it is left open which function.
use icsa_dswp.Prelude.{Bool, false, Option, List, [], ◌∷◌, ◌||◌, ◌==◌}
use icsa_dswp.Std.{Ptr}

-- `dyn_cast<Instruction>(U)` tells the two apart.
pub data User : Type 0 where
  instruction : Ptr → User
  other : User

-- `MemDepResult`; `inst` is null where there is no instruction to name.
pub record MemDepResult : Type 0 where
  pub inst : Ptr
  pub is_def : Bool

-- One incoming value of a phi node: whether it is a `Constant`, and the block that it comes from.
pub record Incoming : Type 0 where
  pub is_constant : Bool
  pub block : Ptr

pub record Function : Type 0 where
  -- `inst_begin(F)` to `inst_end(F)`
  pub insts : List Ptr
  -- `Inst->users()`
  pub users : Ptr → List User
  -- `Inst->mayReadOrWriteMemory()`
  pub may_access_memory : Ptr → Bool
  -- `mda.getDependency(Inst)`
  pub dependency : Ptr → MemDepResult
  -- `BB->begin()` to `BB->end()`
  pub block_insts : Ptr → List Ptr
  -- `&BB->back()`
  pub back : Ptr → Ptr
  -- `dyn_cast<PHINode>(Inst)` with its incoming values
  pub phi : Ptr → Option (List Incoming)

-- The instruction is one of the users.
abbrev pub has_user : List User → Ptr → Bool
has_user [] n = false
has_user (instruction u ∷ us) n = u == n || has_user us n
has_user (other ∷ us) n = has_user us n

-- LLVM's top-level loops of a function, and the blocks of each, those of inner loops included.
pub record LoopInfo : Type 0 where
  pub loops : List Ptr
  -- `L->block_begin()` to `L->block_end()`
  pub blocks : Ptr → List Ptr
