-- ===== src/DecoupleLoopsPrinter/Groups.antt =====
-- What the printer is to print, without `-1` in the vectors: the entries grouped by their lines,
-- in the order in which the lines first occur.
use icsa_dswp.Prelude.{
  ℕ, ◌≡◌, refl, ap, ◌∙◌, Bool, true, false, Option, none, some, List, [], ◌∷◌, arith, ◌==◌, ==_iff,
  if◌then◌else◌, contains, IsUnique,
}
use icsa_dswp.Debug.{File}
use icsa_dswp.Output.{text, number, Stream}
use icsa_dswp.DecoupleLoopsPrinter.{Entry, differs, print_marks, print_entry}

-- the entries that are the first of their lines, but for the lines that were seen before
unfoldable pub leaders : List ℕ → List Entry → List Entry
leaders seen [] = []
leaders seen (e ∷ es) =
    let known = leaders seen es in
    let new = leaders (e.line ∷ seen) es in if contains seen e.line then known else e ∷ new

unfoldable pub at_line : ℕ → List Entry → List Entry
at_line line [] = []
at_line line (e ∷ es) = let rest = at_line line es in if e.line == line then e ∷ rest else rest

abbrev pub lines : List Entry → List ℕ
lines [] = []
lines (e ∷ es) = e.line ∷ lines es

-- The marks of a branch, of work and of an iterator.
abbrev pub marks : (branch work iter : Bool) → Stream → Stream
marks false false false rest = rest
marks false false true rest = text "i" ∷ rest
marks false true false rest = text "w" ∷ rest
marks false true true rest = text "w" ∷ text "i" ∷ rest
marks true false false rest = text "b-" ∷ rest
marks true false true rest = text "b-" ∷ text "i" ∷ rest
marks true true false rest = text "b-" ∷ text "w" ∷ rest
marks true true true rest = text "b-" ∷ text "w" ∷ text "i" ∷ rest

-- The last number that was printed, if any, is this one.
abbrev pub is_current : Option ℕ → ℕ → Bool
is_current none n = false
is_current (some m) n = m == n

-- the column and the marks of an entry, after its block if that is not the current one
abbrev pub shown_entry : Option ℕ → Entry → Stream → Stream
shown_entry current e rest =
    let body = text " " ∷ number e.col ∷ text ":" ∷ marks e.branch e.work e.iter rest in
    if is_current current e.bb then body else text " ; BB" ∷ number e.bb ∷ text ":" ∷ body

unfoldable pub print_entries : Option ℕ → List Entry → Stream → Stream
print_entries current [] rest = rest
print_entries current (e ∷ es) rest = shown_entry current e (print_entries (some e.bb) es rest)

-- one line of the output for each leader, with a heading where the loop changes
unfoldable pub print_groups : File → List Entry → Option ℕ → List Entry → Stream
unfolding print_entries at_line
print_groups file es current [] = []
print_groups file es current (e ∷ ls) =
    let rest = text "\n" ∷ print_groups file es (some e.loop) ls in
    let body =
      text file.filename ∷ text ":" ∷ number e.line ∷ print_entries none (at_line e.line es) rest in
    if is_current current e.loop then body else text "Loop " ∷ number e.loop ∷ text "\n" ∷ body

pub choice_lem {ℓ} :
    {A : Type ℓ} (current : Option ℕ) (n : ℕ) (x y : A)
    → (if differs current n then x else y) ≡ (if is_current current n then y else x)
choice_lem none n x y = refl
choice_lem (some m) n x y = ground arith

marks_lem : (e : Entry) (rest : Stream) → print_marks e rest ≡ marks e.branch e.work e.iter rest
marks_lem e rest = ground arith

pub print_entry_lem :
    (current : Option ℕ) (e : Entry) (rest : Stream)
    → print_entry current e rest ≡ shown_entry current e rest
print_entry_lem current e rest =
    choice_lem current e.bb
      (text " ; BB"
        ∷ number e.bb
        ∷ text ":"
        ∷ text " "
        ∷ number e.col
        ∷ text ":"
        ∷ print_marks e rest)
      (text " " ∷ number e.col ∷ text ":" ∷ print_marks e rest)
    ∙ ap
        (λ m.
          let body = text " " ∷ number e.col ∷ text ":" ∷ m in
          if is_current current e.bb then body else text " ; BB" ∷ number e.bb ∷ text ":" ∷ body)
        (marks_lem e rest)

pub contains_same : (ns : List ℕ) (a b : ℕ) → (a == b) ≡ true → contains ns a ≡ contains ns b
contains_same ns a b same = ap (contains ns) ((==_iff a b).0 same)

-- No line is seen twice, and the lines of the leaders are those of the entries.
pub contains-leaders :
    (seen : List ℕ) (es : List Entry) (line : ℕ)
    → contains seen line ≡ false
    → contains (lines (leaders seen es)) line ≡ contains (lines es) line
unfolding leaders
contains-leaders seen [] line new = refl
contains-leaders seen (e ∷ es) line new = ground (
  arith,
  new,
  contains_same seen e.line line,
  contains-leaders seen es line,
  contains-leaders (e.line ∷ seen) es line,
)

leaders_new :
    (seen : List ℕ) (es : List Entry) (line : ℕ)
    → contains seen line ≡ true
    → contains (lines (leaders seen es)) line ≡ false
unfolding leaders
leaders_new seen [] line old = refl
leaders_new seen (e ∷ es) line old = ground (
  arith,
  old,
  contains_same seen e.line line,
  leaders_new seen es line,
  leaders_new (e.line ∷ seen) es line,
)

pub leaders-IsUnique : (seen : List ℕ) (es : List Entry) → IsUnique (lines (leaders seen es))
unfolding leaders
leaders-IsUnique seen [] = tt
leaders-IsUnique seen (e ∷ es) = ground (
  arith,
  ==_iff e.line e.line,
  leaders_new (e.line ∷ seen) es e.line,
  leaders-IsUnique seen es,
  leaders-IsUnique (e.line ∷ seen) es,
)
