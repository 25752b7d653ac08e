-- ===== src/DecoupleSourceSplitPrinter/Outputs.antt =====
-- When the pass returns, and what it prints.
use mathlib.Core.List.{append-nil, append_assoc}
use icsa_dswp.Prelude.{
  ℕ, ◌≡◌, refl, sym, ap, ◌∙◌, true, false, Option, none, some, inl, inr, List, [], ◌∷◌, ◌++◌, arith,
  if◌then◌else◌, Bool-cases, Option-cases,
}
use icsa_dswp.Std.{Ptr}
use icsa_dswp.Outcome.{Outcome, ok, err, bad_dereference, ◌>>=◌, for_each}
use icsa_dswp.Ir.{Function, LoopInfo}
use icsa_dswp.DecoupleLoops
use icsa_dswp.DecoupleLoops.{Memory, get_li, has_work}
use icsa_dswp.Debug.{or_else, File, DebugInfo}
use icsa_dswp.Output.{text, number, Stream}
use icsa_dswp.DecoupleSourceSplitPrinter.{extend_blocks, print_loop, run_on_function}
use icsa_dswp.DecoupleSourceSplitPrinter.Extents.{
  file_of, lines_of, first_of, maximum, insts_of, start, start_lem,
}

module _ (memory : Memory) (dlp : DecoupleLoops.Pass) (f : Function) (debug : DebugInfo) where
  -- the first loop with work
  abbrev pub first_working : List Ptr → Option Ptr
  first_working [] = none
  first_working (l ∷ ls) = let rest = first_working ls in if has_work dlp l then some l else rest

  -- The output for a loop with these lines: the name of the file, the first line that is not 0 and
  -- the highest one.
  abbrev pub line_of : File → List ℕ → Stream
  line_of g ls =
      text g.filename
      ∷ text " "
      ∷ number (first_of ls)
      ∷ text " "
      ∷ number (maximum ls)
      ∷ text "\n"
      ∷ []

  -- the lines of the instructions of a loop
  abbrev pub loop_lines : LoopInfo → Ptr → List ℕ
  loop_lines li l = lines_of memory dlp f debug (insts_of memory dlp f debug (li.blocks l))

  -- one line for each loop with work, in order
  abbrev pub report : File → LoopInfo → List Ptr → Stream
  report g li [] = []
  report g li (l ∷ ls) =
      let rest = report g li ls in
      if has_work dlp l then line_of g (loop_lines li l) ++ rest else rest

  -- what a loop with work does once its file and its lines are known
  abbrev printed_line : Stream → Option File → ℕ → ℕ → Outcome (Option File × Stream)
  printed_line out none first last = err bad_dereference
  printed_line out (some g) first last = ok (
    some g,
    out ++ (text g.filename ∷ text " " ∷ number first ∷ text " " ∷ number last ∷ text "\n" ∷ []),
  )

  shape :
      (out : Stream) (o : Option File) (first last : ℕ)
      → Path
          (Outcome (Option File × Stream))
          (elim o [
            | none ↦ err bad_dereference
            | some g ↦ ok (
              some g,
              out
                  ++ (text g.filename
                      ∷ text " "
                      ∷ number first
                      ∷ text " "
                      ∷ number last
                      ∷ text "\n"
                      ∷ []),
            )
          ])
          (printed_line out o first last)
  shape out none first last = refl
  shape out (some g) first last = refl

  -- the file after the loop
  abbrev own : LoopInfo → Ptr → Option File → Option File
  own li l file =
      or_else file (file_of memory dlp f debug (insts_of memory dlp f debug (li.blocks l)))

  print_loop_lem :
      (li : LoopInfo) (l : Ptr) (file : Option File) (out : Stream)
      → has_work dlp l ≡ true
      → print_loop memory dlp f debug li l (file, out)
        ≡ printed_line out (own li l file) (first_of (loop_lines li l)) (maximum (loop_lines li l))
  unfolding print_loop
  print_loop_lem li l file out work =
      let x = extend_blocks memory dlp f debug (li.blocks l) (start memory dlp f debug file) in
      let (found, first, last) = start_lem memory dlp f debug (li.blocks l) file in
      rw (work, print_loop)
        (shape out x.file x.first_line x.last_line
          ∙ ap (λ o. printed_line out o x.first_line x.last_line) found
          ∙ ap (λ k. printed_line out (own li l file) k x.last_line) first
          ∙ ap (printed_line out (own li l file) (first_of (loop_lines li l))) last)

  print_loop_idle :
      (li : LoopInfo) (l : Ptr) (file : Option File) (out : Stream)
      → has_work dlp l ≡ false
      → print_loop memory dlp f debug li l (file, out) ≡ ok (file, out)
  unfolding print_loop
  print_loop_idle li l file out idle = rw (idle, print_loop) refl

  -- Once there is a file, every loop with work is printed.
  print_loops_lem :
      (li : LoopInfo) (ls : List Ptr) (g : File) (out : Stream)
      → for_each (print_loop memory dlp f debug li) ls (some g, out)
        ≡ ok (some g, out ++ report g li ls)
  unfolding for_each
  print_loops_lem li [] g out = ap (λ o. ok (some g, o)) (sym (append-nil out))
  print_loops_lem li (l ∷ ls) g out = elim (Bool-cases (has_work dlp l)) [
    | inl work ↦ rw (print_loop_lem li l (some g) out work) (
        rw work (
          print_loops_lem li ls g (out ++ line_of g (loop_lines li l))
          ∙ ap (λ o. ok (some g, o))
              (append_assoc out (line_of g (loop_lines li l)) (report g li ls))))
    | inr idle ↦ rw (print_loop_idle li l (some g) out idle) (rw idle (print_loops_lem li ls g out))
  ]

  -- How the first loop with work decides what the printer does with the loops.
  pub IsDecided : LoopInfo → List Ptr → Option Ptr → Outcome Stream → Type 0
  IsDecided li ls none o = o ≡ ok []
  IsDecided li ls (some l) o =
      elim (file_of memory dlp f debug (insts_of memory dlp f debug (li.blocks l))) [
        | none ↦ o ≡ err bad_dereference
        | some g ↦ o ≡ ok (report g li ls)
      ]

  -- the loop over the loops, for the printer's result
  abbrev printed : LoopInfo → List Ptr → Outcome Stream
  printed li ls = do (file, out) ← for_each (print_loop memory dlp f debug li) ls (none, []); ok out

  first_idle :
      (li : LoopInfo) (l : Ptr) (ls : List Ptr) (first : Option Ptr)
      → has_work dlp l ≡ false
      → IsDecided li ls first (printed li ls)
      → IsDecided li (l ∷ ls) first (printed li (l ∷ ls))
  unfolding for_each IsDecided
  first_idle li l ls none idle h = rw (print_loop_idle li l none [] idle) h
  first_idle li l ls (some k) idle h =
      elim (Option-cases (file_of memory dlp f debug (insts_of memory dlp f debug (li.blocks k)))) [
        | inl hidden ↦
            rw (print_loop_idle li l none [] idle) (rw (hidden, IsDecided) (before hidden))
        | inr (g, shown) ↦
            rw (print_loop_idle li l none [] idle) (rw (shown, idle, IsDecided) (found g shown))
      ]
    where
      before :
          file_of memory dlp f debug (insts_of memory dlp f debug (li.blocks k)) ≡ none
          → printed li ls ≡ err bad_dereference
      before hidden = ground (arith, hidden, h)

      found :
          (g : File)
          → file_of memory dlp f debug (insts_of memory dlp f debug (li.blocks k)) ≡ some g
          → printed li ls ≡ ok (report g li ls)
      found g shown = ground (arith, shown, h)

  first_work :
      (li : LoopInfo) (l : Ptr) (ls : List Ptr)
      → has_work dlp l ≡ true
      → IsDecided li (l ∷ ls) (some l) (printed li (l ∷ ls))
  unfolding for_each IsDecided
  first_work li l ls work =
      elim (Option-cases (file_of memory dlp f debug (insts_of memory dlp f debug (li.blocks l)))) [
        | inl hidden ↦
            rw (hidden, IsDecided) (rw (print_loop_lem li l none [] work) (rw hidden refl))
        | inr (g, shown) ↦
            rw (shown, IsDecided)
              (rw (print_loop_lem li l none [] work) (
                rw shown
                  (rw (print_loops_lem li ls g (line_of g (loop_lines li l))) (rw work refl))))
      ]

  first_lem : (li : LoopInfo) (ls : List Ptr) → IsDecided li ls (first_working ls) (printed li ls)
  unfolding for_each IsDecided
  first_lem li [] = refl
  first_lem li (l ∷ ls) = elim (Bool-cases (has_work dlp l)) [
    | inr idle ↦ rw idle (first_idle li l ls (first_working ls) idle (first_lem li ls))
    | inl work ↦ rw work (first_work li l ls work)
  ]

  -- If the pass has the loops of the function, the printer returns without output where no loop has
  -- work. Otherwise the first loop with work decides: without a location on an instruction of its
  -- blocks the name of a null file is read, and with one the printer returns and has printed, for
  -- each loop with work in order, the name of the file of the first such location, the first line
  -- that is not 0 and the highest line of the instructions of the loop, with 0 where it has none.
  pub outputs_lem :
      (at_f at_li : Ptr)
      → get_li dlp at_f ≡ some at_li
      → let li = memory.loops_at at_li in
        IsDecided li li.loops (first_working li.loops) (run_on_function memory dlp f debug at_f)
  unfolding run_on_function
  outputs_lem at_f at_li listed =
      rw (listed, run_on_function) (first_lem (memory.loops_at at_li) (memory.loops_at at_li).loops)
