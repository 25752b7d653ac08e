-- ===== src/DecoupleLoopsPrinter.antt =====
-- pass/src/DecoupleLoopsPrinter.cpp: for each source line of the loops with work, the columns of
-- its instructions, marked as branches, work and iterators. The seven vectors of the code grow
-- together; here they are one list of entries.
pub mod Groups
pub mod Grouping
pub mod Facts
pub mod Scanning
use Prim.Native.String.{String}
use icsa_dswp.Prelude.{
  ℕ, zero, suc, ◌+◌, Bool, true, false, not, Option, none, some, List, [], ◌∷◌, ◌++◌, ◌==◌,
  if◌then◌else◌, length,
}
use icsa_dswp.Std.{Ptr}
use icsa_dswp.Outcome.{Outcome, ok, err, bad_dereference, ◌>>=◌, for_each}
use icsa_dswp.Ir.{Function, LoopInfo}
use icsa_dswp.DecoupleLoops
use icsa_dswp.DecoupleLoops.{Memory, get_li, has_work, is_work, is_iter}
use icsa_dswp.Debug.{File, Location, DebugInfo, or_file}
use icsa_dswp.Output.{Piece, text, number, Stream}

-- `-1` as an `int` of 32 bits, which marks a line as traversed
abbrev pub traversed : ℕ
traversed = 4294967295

-- one place of the vectors `lines`, `cols`, `BBs`, `Loops`, `branchLines`, `workLines`, `iterLines`
pub record Entry : Type 0 where
  pub line : ℕ
  pub col : ℕ
  pub bb : ℕ
  pub loop : ℕ
  pub branch : Bool
  pub work : Bool
  pub iter : Bool

-- the other local variables of the first loop
pub record Scan : Type 0 where
  pub file : Option File
  pub entries : List Entry
  pub bb_count : ℕ
  pub loop_count : ℕ

module _ (memory : Memory) (dlp : DecoupleLoops.Pass) (f : Function) (debug : DebugInfo) where
  unfoldable pub scan_inst : Ptr → Ptr → Scan → Outcome Scan
  unfolding is_work is_iter
  scan_inst l inst s = elim (debug.location inst) [
    | none ↦ ok s
    | some loc ↦ do
      work ← is_work memory dlp inst l
      iter ← is_iter memory dlp inst l
      ok (record s {
        file = or_file s.file loc.file;
        entries =
            s.entries
            ++ (record {
              line = loc.line;
              col = loc.column;
              bb = s.bb_count;
              loop = s.loop_count;
              branch = debug.is_branch inst;
              work = work;
              iter = iter;
            }
                ∷ []);
      })
  ]

  unfoldable pub scan_block : Ptr → Ptr → Scan → Outcome Scan
  unfolding scan_inst for_each
  scan_block l block s = do
    s' ← for_each (scan_inst l) (f.block_insts block) s
    ok (record s' { bb_count = suc s'.bb_count })

  unfoldable pub scan_loop : LoopInfo → Ptr → Scan → Outcome Scan
  unfolding has_work scan_block for_each
  scan_loop li l s = if not (has_work dlp l) then ok s else do
    s' ← for_each (scan_block l) (li.blocks l) s
    ok (record s' { loop_count = suc s'.loop_count })

  unfoldable pub scan : LoopInfo → Outcome Scan
  unfolding scan_loop for_each
  scan li =
      for_each (scan_loop li) li.loops
        (record { file = none; entries = []; bb_count = 0; loop_count = 0 })

-- `if (branchLines[j]) roos << "b-"; ...`
abbrev pub print_marks : Entry → Stream → Stream
print_marks e rest =
    let iter = if e.iter then text "i" ∷ rest else rest in
    let work = if e.work then text "w" ∷ iter else iter in
    if e.branch then text "b-" ∷ work else work

-- What `prevBB` and `prevLoop` start with is -1, here `none`.
abbrev pub differs : Option ℕ → ℕ → Bool
differs none n = true
differs (some m) n = not (m == n)

-- one round of the inner loop, for an entry of the line
abbrev pub print_entry : Option ℕ → Entry → Stream → Stream
print_entry prev_bb e rest =
    let marked = text " " ∷ number e.col ∷ text ":" ∷ print_marks e rest in
    if differs prev_bb e.bb then text " ; BB" ∷ number e.bb ∷ text ":" ∷ marked else marked

-- The inner loop: what it leaves in the vectors, and what it puts into the stream before the end of
-- the line.
unfoldable pub mark_line : ℕ → List Entry → List Entry
mark_line line [] = []
mark_line line (e ∷ es) =
    (if e.line == line then record e { line = traversed } else e) ∷ mark_line line es

unfoldable pub print_line : ℕ → Option ℕ → List Entry → Stream → Stream
print_line line prev_bb [] rest = rest
print_line line prev_bb (e ∷ es) rest =
    let here = print_line line (some e.bb) es rest in
    let later = print_line line prev_bb es rest in
    if e.line == line then print_entry prev_bb e here else later

abbrev pub nth : List Entry → ℕ → Option Entry
nth [] i = none
nth (e ∷ es) zero = some e
nth (e ∷ es) (suc i) = nth es i

-- The outer loop, from the index `i` with as many rounds left as the first number says.
unfoldable pub print_from : File → ℕ → ℕ → Option ℕ → List Entry → Stream
unfolding print_line mark_line
print_from file zero i prev_loop es = []
print_from file (suc left) i prev_loop es = elim (nth es i) [
  | none ↦ []
  | some e ↦
      let skipped = print_from file left (suc i) prev_loop es in
      let rest = print_from file left (suc i) (some e.loop) (mark_line e.line es) in
      let body =
        text file.filename
        ∷ text ":"
        ∷ number e.line
        ∷ print_line e.line none es (text "\n" ∷ rest) in
      if e.line == traversed
      then skipped
      else if differs prev_loop e.loop
      then text "Loop " ∷ number e.loop ∷ text "\n" ∷ body
      else body
]

-- the streams `cout` and `errs()`
pub record Streams : Type 0 where
  pub out : Stream
  pub errs : Stream

-- `DecoupleLoopsPrinter::runOnFunction`
unfoldable pub run_on_function :
    (memory : Memory) (dlp : DecoupleLoops.Pass) (f : Function) (at_f : Ptr) (debug : DebugInfo)
    → Outcome Streams
unfolding get_li scan print_from
run_on_function memory dlp f at_f debug = elim (get_li dlp at_f) [
  | none ↦ err bad_dereference
  | some at_li ↦ do
    s ← scan memory dlp f debug (memory.loops_at at_li)
    ok (elim s.file [
      | none ↦ record { out = []; errs = text "ERROR: No debugging information found!\n" ∷ [] }
      | some file ↦ record { out = print_from file (length s.entries) 0 none s.entries; errs = [] }
    ])
]

-- the loop of `printLocInfo` over the lines, with the end of the line
unfoldable pub print_numbers : List ℕ → Stream
print_numbers [] = text "\n" ∷ []
print_numbers (line ∷ lines) = text " " ∷ number line ∷ print_numbers lines

-- `printLocInfo`, which nothing calls
unfoldable pub print_loc_info : Option File → List ℕ → Stream
unfolding print_numbers
print_loc_info none lines = []
print_loc_info (some file) lines =
    text file.directory ∷ text "/" ∷ text file.filename ∷ print_numbers lines
