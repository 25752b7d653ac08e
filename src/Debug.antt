-- ===== src/Debug.antt =====
-- What the printers read from LLVM's debug information: the source location of an instruction.
use Prim.Native.String.{String}
use icsa_dswp.Prelude.{ℕ, ◌≡◌, refl, Bool, Option, none, some}
use icsa_dswp.Std.{Ptr}

-- `DIFile`
pub record File : Type 0 where
  -- `getName()`
  pub name : String
  -- `getFilename()`
  pub filename : String
  -- `getDirectory()`
  pub directory : String

-- `DILocation`; a line is an `unsigned`.
pub record Location : Type 0 where
  pub file : File
  pub line : ℕ
  pub column : ℕ

pub record DebugInfo : Type 0 where
  -- `Inst.getDebugLoc()`, null as `none`
  pub location : Ptr → Option Location
  -- `dyn_cast<BranchInst>(&Inst)`
  pub is_branch : Ptr → Bool

-- `if (!File) File = Loc->getFile();`, which three printers have
abbrev pub or_file : Option File → File → Option File
or_file none f = some f
or_file (some g) f = some g

-- the first file that there is
abbrev pub or_else : Option File → Option File → Option File
or_else a b = elim a [ none ↦ b | some f ↦ some f ]

pub or_else-none : (a : Option File) → a ≡ or_else a none
or_else-none none = refl
or_else-none (some f) = refl

pub or_else_assoc : (a b c : Option File) → or_else a (or_else b c) ≡ or_else (or_else a b) c
or_else_assoc none b c = refl
or_else_assoc (some f) b c = refl

pub or_file_lem : (a : Option File) (f : File) → or_file a f ≡ or_else a (some f)
or_file_lem none f = refl
or_file_lem (some g) f = refl
