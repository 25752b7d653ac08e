-- ===== src/DecoupleLoopsPrinter/Grouping.antt =====
-- The marks that the printer leaves in its vectors group the entries by their lines.
use mathlib.Core.List.{append_assoc}
use icsa_dswp.Prelude.{
  ℕ, suc, ◌≡◌, refl, sym, ap, ◌∙◌, subst, true, false, Option, none, some, inl, inr, List, [], ◌∷◌,
  ◌++◌, arith, ◌==◌, ==_iff, if◌then◌else◌, Bool-cases, contains, IsUnique, length,
}
use icsa_dswp.Debug.{File}
use icsa_dswp.Output.{text, Stream}
use icsa_dswp.DecoupleLoopsPrinter.{
  Entry, traversed, print_entry, mark_line, print_line, nth, print_from,
}
use icsa_dswp.DecoupleLoopsPrinter.Groups.{
  leaders, at_line, lines, print_entries, print_groups, contains_same, contains-leaders,
  leaders-IsUnique, choice_lem, print_entry_lem,
}

-- the vectors after the lines that were seen
abbrev mark : List ℕ → Entry → Entry
mark seen e = if contains seen e.line then record e { line = traversed } else e

abbrev marked : List ℕ → List Entry → List Entry
marked seen [] = []
marked seen (e ∷ es) = mark seen e ∷ marked seen es

nth-marked :
    (seen : List ℕ) (before : List Entry) (e : Entry) (es : List Entry)
    → nth (marked seen (before ++ e ∷ es)) (length before) ≡ some (mark seen e)
nth-marked seen [] e es = refl
nth-marked seen (d ∷ before) e es = nth-marked seen before e es

marked_none : (es : List Entry) → marked [] es ≡ es
marked_none [] = refl
marked_none (e ∷ es) = ap (λ ds. e ∷ ds) (marked_none es)

-- An entry of a new line is found by its line, and an entry of a line that was seen is not.
line-mark :
    (seen : List ℕ) (line : ℕ) (e : Entry)
    → contains seen line ≡ false
    → (line == traversed) ≡ false
    → ((mark seen e).line == line) ≡ (e.line == line)
line-mark seen line e new proper = elim (Bool-cases (contains seen e.line)) [
  | inl old ↦ ground (
    arith,
    old,
    new,
    proper,
    contains_same seen e.line line,
    ==_iff traversed line,
    ==_iff line traversed,
  )
  | inr fresh ↦ ground (arith, fresh)
]

-- the body of the inner loop on the mark of an entry
mark_line-mark :
    (seen : List ℕ) (line : ℕ) (e : Entry)
    → contains seen line ≡ false
    → (line == traversed) ≡ false
    → (if (mark seen e).line == line
        then record (mark seen e) { line = traversed }
        else mark seen e)
      ≡ mark (line ∷ seen) e
mark_line-mark seen line e new proper = ground (
  arith,
  new,
  proper,
  line-mark seen line e,
  contains_same seen e.line line,
  ==_iff e.line line,
  ==_iff line e.line,
)

mark_line-marked :
    (seen : List ℕ) (line : ℕ) (es : List Entry)
    → contains seen line ≡ false
    → (line == traversed) ≡ false
    → mark_line line (marked seen es) ≡ marked (line ∷ seen) es
unfolding mark_line
mark_line-marked seen line [] new proper = refl
mark_line-marked seen line (e ∷ es) new proper =
    ap (λ d. d ∷ mark_line line (marked seen es)) (mark_line-mark seen line e new proper)
    ∙ ap (λ ds. mark (line ∷ seen) e ∷ ds) (mark_line-marked seen line es new proper)

mark_fresh :
    (seen : List ℕ) (line : ℕ) (e : Entry)
    → contains seen line ≡ false
    → (e.line == line) ≡ true
    → mark seen e ≡ e
mark_fresh seen line e new same = ground (arith, new, same, contains_same seen e.line line)

print_line-marked :
    (seen : List ℕ) (line : ℕ) (prev_bb : Option ℕ) (es : List Entry) (rest : Stream)
    → contains seen line ≡ false
    → (line == traversed) ≡ false
    → print_line line prev_bb (marked seen es) rest ≡ print_entries prev_bb (at_line line es) rest
unfolding print_line print_entries at_line
print_line-marked seen line prev_bb [] rest new proper = refl
print_line-marked seen line prev_bb (e ∷ es) rest new proper = elim (Bool-cases (e.line == line)) [
  | inl here ↦ rw (mark_fresh seen line e new here) (
      rw here (
        ap (print_entry prev_bb e) (print_line-marked seen line (some e.bb) es rest new proper)
        ∙ print_entry_lem prev_bb e (print_entries (some e.bb) (at_line line es) rest)))
  | inr other ↦
      rw (line-mark seen line e new proper)
        (rw other (print_line-marked seen line prev_bb es rest new proper))
]

length-end : (es : List Entry) (e : Entry) → length (es ++ e ∷ []) ≡ suc (length es)
length-end [] e = refl
length-end (d ∷ es) e = ap suc (length-end es e)

line_proper :
    (before : List Entry) (e : Entry) (es : List Entry)
    → contains (lines (before ++ e ∷ es)) traversed ≡ false
    → (e.line == traversed) ≡ false
line_proper [] e es proper = ground (arith, proper)
line_proper (d ∷ before) e es proper = line_proper before e es (ground (arith, proper))

-- what the outer loop prints from the entry after `before` on
abbrev AreGrouped : File → List Entry → ℕ → List Entry → List ℕ → Option ℕ → Type 0
AreGrouped file all i es seen prev_loop =
    print_from file (length es) i prev_loop (marked seen all)
    ≡ print_groups file all prev_loop (leaders seen es)

-- The entry in front goes to the entries before.
AreGrouped-step :
    (file : File) (before : List Entry) (e : Entry) (es : List Entry) (seen : List ℕ)
    (prev_loop : Option ℕ)
    → AreGrouped file ((before ++ e ∷ []) ++ es) (length (before ++ e ∷ [])) es seen prev_loop
    → AreGrouped file (before ++ e ∷ es) (suc (length before)) es seen prev_loop
AreGrouped-step file before e es seen prev_loop h =
    subst (λ all. AreGrouped file all (suc (length before)) es seen prev_loop)
      (append_assoc before (e ∷ []) es)
      (subst (λ i. AreGrouped file ((before ++ e ∷ []) ++ es) i es seen prev_loop)
        (length-end before e) h)

print_from_lem :
    (file : File) (before es : List Entry) (seen : List ℕ) (prev_loop : Option ℕ)
    → contains (lines (before ++ es)) traversed ≡ false
    → AreGrouped file (before ++ es) (length before) es seen prev_loop
unfolding print_from print_groups leaders
print_from_lem file before [] seen prev_loop proper = refl
print_from_lem file before (e ∷ es) seen prev_loop proper =
    let next = λ (s : List ℕ) (p : Option ℕ). AreGrouped-step file before e es s p (
      print_from_lem file (before ++ e ∷ []) es s p
        (ap (λ all. contains (lines all) traversed) (append_assoc before (e ∷ []) es) ∙ proper)) in
    elim (Bool-cases (contains seen e.line)) [
      | inl old ↦ rw (print_from, nth-marked seen before e es) (rw old (next seen prev_loop))
      | inr fresh ↦
          rw (print_from, nth-marked seen before e es)
            (rw (fresh, line_proper before e es proper)
              (rw
                (mark_line-marked seen e.line (before ++ e ∷ es) fresh
                  (line_proper before e es proper))
                (rw (next (e.line ∷ seen) (some e.loop)) (
                  rw
                    (print_line-marked seen e.line none (before ++ e ∷ es)
                      (text "\n"
                        ∷ print_groups file (before ++ e ∷ es) (some e.loop)
                            (leaders (e.line ∷ seen) es))
                      fresh (line_proper before e es proper))
                    (choice_lem prev_loop e.loop _ _)))))
    ]

-- If no entry has the line that marks a traversed one, the second loop prints the entries grouped
-- by lines, in the order in which the lines first occur and the entries of a line in their order,
-- with a heading where the loop of the first entry of a line differs from that of the line before;
-- each line of an entry has exactly one group.
pub grouping_lem :
    (file : File) (es : List Entry)
    → contains (lines es) traversed ≡ false
    → (print_from file (length es) 0 none es ≡ print_groups file es none (leaders [] es))
      × IsUnique (lines (leaders [] es))
      × ((line : ℕ) → contains (lines (leaders [] es)) line ≡ contains (lines es) line)
grouping_lem file es proper = (
  ap (print_from file (length es) 0 none) (sym (marked_none es))
      ∙ print_from_lem file [] es [] none proper,
  leaders-IsUnique [] es,
  λ line. contains-leaders [] es line refl,
)
