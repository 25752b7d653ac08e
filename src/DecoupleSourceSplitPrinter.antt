-- ===== src/DecoupleSourceSplitPrinter.antt =====
-- pass/src/DecoupleSourceSplitPrinter.cpp: the first and the last source line of each loop with
-- work.
pub mod Extents
pub mod Outputs
use icsa_dswp.Prelude.{
  ℕ, true, false, not, Option, none, some, List, [], ◌∷◌, ◌++◌, ltb, ◌==◌, if◌then◌else◌,
}
use icsa_dswp.Std.{Ptr}
use icsa_dswp.Outcome.{Outcome, ok, err, bad_dereference, ◌>>=◌, for_each}
use icsa_dswp.Ir.{Function, LoopInfo}
use icsa_dswp.DecoupleLoops
use icsa_dswp.DecoupleLoops.{Memory, get_li, has_work}
use icsa_dswp.Debug.{File, Location, DebugInfo, or_file}
use icsa_dswp.Output.{Piece, text, number, Stream}

-- the local variables inside the loop over the loops, with the `File` outside of it
pub record Extent : Type 0 where
  pub file : Option File
  pub first_line : ℕ
  pub last_line : ℕ

module _ (memory : Memory) (dlp : DecoupleLoops.Pass) (f : Function) (debug : DebugInfo) where
  -- the body of the innermost loop
  unfoldable pub extend : Ptr → Extent → Extent
  extend inst x = elim (debug.location inst) [
    | none ↦ x
    | some loc ↦ record {
      file = or_file x.file loc.file;
      first_line = if x.first_line == 0 then loc.line else x.first_line;
      last_line = if ltb x.last_line loc.line then loc.line else x.last_line;
    }
  ]

  unfoldable pub extend_insts : List Ptr → Extent → Extent
  unfolding extend
  extend_insts [] x = x
  extend_insts (i ∷ is) x = extend_insts is (extend i x)

  unfoldable pub extend_blocks : List Ptr → Extent → Extent
  unfolding extend_insts
  extend_blocks [] x = x
  extend_blocks (b ∷ bs) x = extend_blocks bs (extend_insts (f.block_insts b) x)

  -- what the loop over the loops changes: the file, and what is in the stream
  abbrev pub Printing : Type 0
  Printing = Option File × Stream

  -- The body of the loop over the loops; `File->getFilename()` needs a file.
  unfoldable pub print_loop : LoopInfo → Ptr → Printing → Outcome Printing
  unfolding has_work extend_blocks
  print_loop li l (file, out) =
      if not (has_work dlp l)
      then ok (file, out)
      else let x =
          extend_blocks (li.blocks l) (record { file = file; first_line = 0; last_line = 0 }) in
        elim x.file [
          | none ↦ err bad_dereference
          | some g ↦ ok (
            some g,
            out
                ++ (text g.filename
                    ∷ text " "
                    ∷ number x.first_line
                    ∷ text " "
                    ∷ number x.last_line
                    ∷ text "\n"
                    ∷ []),
          )
        ]

  -- `DecoupleSourceSplitPrinter::runOnFunction`: what it puts into `cout`.
  unfoldable pub run_on_function : (at_f : Ptr) → Outcome Stream
  unfolding get_li print_loop for_each
  run_on_function at_f = elim (get_li dlp at_f) [
    | none ↦ err bad_dereference
    | some at_li ↦ do
      let li = memory.loops_at at_li
      (file, out) ← for_each (print_loop li) li.loops (none, [])
      ok out
  ]
