-- ===== src/DecoupleSourceSplitPrinter/Extents.antt =====
-- The first and the last line of a loop.
use icsa_dswp.Prelude.{
  ℕ, ◌≤◌, ◌≡◌, refl, sym, ◌∙◌, true, Option, none, some, List, [], ◌∷◌, ◌++◌, arith, ltb, ◌==◌,
  ==_iff, if◌then◌else◌, contains,
}
use icsa_dswp.Std.{Ptr}
use icsa_dswp.Ir.{Function}
use icsa_dswp.DecoupleLoops
use icsa_dswp.DecoupleLoops.{Memory}
use icsa_dswp.Debug.{File, DebugInfo, or_else}
use icsa_dswp.DecoupleSourceSplitPrinter.{Extent, extend, extend_insts, extend_blocks}

-- the first line that is not 0, or 0 if there is none
unfoldable pub first_of : List ℕ → ℕ
first_of [] = 0
first_of (line ∷ ls) = let rest = first_of ls in if line == 0 then rest else line

unfoldable pub maximum : List ℕ → ℕ
maximum [] = 0
maximum (line ∷ ls) = let rest = maximum ls in if ltb rest line then line else rest

maximum_le : (ls : List ℕ) (line : ℕ) → contains ls line ≡ true → line ≤ maximum ls
unfolding maximum
maximum_le [] line h = absurd (ground (arith, h))
maximum_le (l ∷ ls) line h = ground (arith, h, ==_iff l line, maximum_le ls line)

maximum_in : (l : ℕ) (ls : List ℕ) → contains (l ∷ ls) (maximum (l ∷ ls)) ≡ true
unfolding maximum
maximum_in l [] = ground (arith, ==_iff l l)
maximum_in l (k ∷ ls) = ground (arith, ==_iff l l, maximum_in k ls)

first_of_in : (l : ℕ) (ls : List ℕ) → contains (l ∷ ls) (first_of (l ∷ ls)) ≡ true
unfolding first_of
first_of_in l [] = ground (arith, ==_iff l l, ==_iff l 0)
first_of_in l (k ∷ ls) = ground (arith, ==_iff l l, first_of_in k ls)

module _ (memory : Memory) (dlp : DecoupleLoops.Pass) (f : Function) (debug : DebugInfo) where
  -- the lines of the instructions that have a location, and the file of the first of them
  unfoldable pub lines_of : List Ptr → List ℕ
  lines_of [] = []
  lines_of (i ∷ is) = elim (debug.location i) [
    | none ↦ lines_of is
    | some loc ↦ loc.line ∷ lines_of is
  ]

  unfoldable pub file_of : List Ptr → Option File
  file_of [] = none
  file_of (i ∷ is) = elim (debug.location i) [ none ↦ file_of is | some loc ↦ some loc.file ]

  -- the instructions of the blocks, in order
  abbrev pub insts_of : List Ptr → List Ptr
  insts_of [] = []
  insts_of (b ∷ bs) = f.block_insts b ++ insts_of bs

  -- The instructions have been seen.
  pub record IsExtended (x y : Extent) (is : List Ptr) : Type 0 where
    pub file : y.file ≡ or_else x.file (file_of is)
    pub first : y.first_line ≡ (if x.first_line == 0 then first_of (lines_of is) else x.first_line)
    pub last :
        y.last_line
        ≡ (if ltb x.last_line (maximum (lines_of is)) then maximum (lines_of is) else x.last_line)

  extend_insts_lem :
      (is : List Ptr) (x : Extent) → IsExtended x (extend_insts memory dlp f debug is x) is
  unfolding extend_insts extend first_of maximum lines_of file_of
  extend_insts_lem [] x = record { file = ground arith; first = ground arith; last = ground arith }
  extend_insts_lem (i ∷ is) x =
      let rest = extend_insts_lem is (extend memory dlp f debug i x) in
      record {
        file = ground (arith, rest.file);
        first = ground (arith, rest.first);
        last = ground (arith, rest.last);
      }

  extend_insts-append :
      (is js : List Ptr) (x : Extent)
      → extend_insts memory dlp f debug (is ++ js) x
        ≡ extend_insts memory dlp f debug js (extend_insts memory dlp f debug is x)
  unfolding extend_insts
  extend_insts-append [] js x = refl
  extend_insts-append (i ∷ is) js x = extend_insts-append is js (extend memory dlp f debug i x)

  extend_blocks_flat :
      (bs : List Ptr) (x : Extent)
      → extend_blocks memory dlp f debug bs x ≡ extend_insts memory dlp f debug (insts_of bs) x
  unfolding extend_blocks extend_insts
  extend_blocks_flat [] x = refl
  extend_blocks_flat (b ∷ bs) x =
      extend_blocks_flat bs (extend_insts memory dlp f debug (f.block_insts b) x)
      ∙ sym (extend_insts-append (f.block_insts b) (insts_of bs) x)

  -- what the loop over the loops starts a loop with
  abbrev pub start : Option File → Extent
  start file = record { file = file; first_line = 0; last_line = 0 }

  pub start_lem :
      (bs : List Ptr) (file : Option File)
      → let x = extend_blocks memory dlp f debug bs (start file) in
        (x.file ≡ or_else file (file_of (insts_of bs)))
        × (x.first_line ≡ first_of (lines_of (insts_of bs)))
        × (x.last_line ≡ maximum (lines_of (insts_of bs)))
  start_lem bs file =
      let done = extend_insts_lem (insts_of bs) (start file) in
      rw (extend_blocks_flat bs (start file)) (done.file, done.first, done.last ∙ ground arith)

  -- If an instruction of the blocks of a loop is on the line, the two lines that are printed of the
  -- loop are lines of its instructions, the last one is the highest, and the first one is the first
  -- that is not 0, if there is one.
  pub extent_lem :
      (bs : List Ptr) (file : Option File) (line : ℕ)
      → contains (lines_of (insts_of bs)) line ≡ true
      → let x = extend_blocks memory dlp f debug bs (start file) in
        (line ≤ x.last_line)
        × (x.first_line ≤ x.last_line)
        × (contains (lines_of (insts_of bs)) x.last_line ≡ true)
        × (contains (lines_of (insts_of bs)) x.first_line ≡ true)
        × (x.first_line ≡ first_of (lines_of (insts_of bs)))
  extent_lem bs file line h =
      let (_, first, last) = start_lem bs file in
      rw (first, last) (bounded (lines_of (insts_of bs)) refl)
    where
      bounded :
          (ls : List ℕ)
          → lines_of (insts_of bs) ≡ ls
          → (line ≤ maximum (lines_of (insts_of bs)))
            × (first_of (lines_of (insts_of bs)) ≤ maximum (lines_of (insts_of bs)))
            × (contains (lines_of (insts_of bs)) (maximum (lines_of (insts_of bs))) ≡ true)
            × (contains (lines_of (insts_of bs)) (first_of (lines_of (insts_of bs))) ≡ true)
            × (first_of (lines_of (insts_of bs)) ≡ first_of (lines_of (insts_of bs)))
      bounded [] e = absurd (ground (arith, e, h))
      bounded (l ∷ ls) e =
          let inside = first_of_in l ls in
          (
            maximum_le (lines_of (insts_of bs)) line h,
            rw e (maximum_le (l ∷ ls) (first_of (l ∷ ls)) inside),
            rw e (maximum_in l ls),
            rw e inside,
            refl,
          )
