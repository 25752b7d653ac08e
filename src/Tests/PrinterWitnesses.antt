-- ===== src/Tests/PrinterWitnesses.antt =====
-- The theorems on the printers of the loops at concrete inputs.
use icsa_dswp.Prelude.{◌≤◌, ◌≡◌, refl, true, false, none, ℕ, List, [], ◌∷◌, contains, IsUnique}
use icsa_dswp.Std.PtrMap
use icsa_dswp.Outcome.{ok}
use icsa_dswp.DecoupleLoops.{has_work, get_li}
use icsa_dswp.DecoupleLoopsPrinter
use icsa_dswp.DecoupleLoopsPrinter.{Entry, print_from}
use icsa_dswp.DecoupleLoopsPrinter.Groups.{leaders, lines, print_groups}
use icsa_dswp.DecoupleLoopsPrinter.Grouping.{grouping_lem}
use icsa_dswp.DecoupleLoopsPrinter.Facts
use icsa_dswp.DecoupleLoopsPrinter.Facts.{said}
use icsa_dswp.DecoupleLoopsPrinter.Scanning.{all_said, printed_lem}
use icsa_dswp.DecoupleSourceSplitPrinter
use icsa_dswp.DecoupleSourceSplitPrinter.{extend_blocks}
use icsa_dswp.DecoupleSourceSplitPrinter.Extents.{start, lines_of, first_of, extent_lem}
use icsa_dswp.DecoupleSourceSplitPrinter.Outputs.{IsDecided, first_working, outputs_lem}
use icsa_dswp.Tests.Samples.{memory, sample, sample_loops, decouple_end}
use icsa_dswp.Tests.PrinterSamples.{source_file, debug, ready}

abbrev entries : List Entry
entries =
    (record { line = 8; col = 1; bb = 0; loop = 0; branch = false; work = true; iter = false })
    ∷ (record { line = 9; col = 4; bb = 0; loop = 0; branch = false; work = false; iter = true })
    ∷ (record { line = 8; col = 7; bb = 1; loop = 1; branch = true; work = false; iter = true })
    ∷ []

grouping_lem_example :
    (print_from source_file 3 0 none entries
      ≡ print_groups source_file entries none (leaders [] entries))
    × IsUnique (lines (leaders [] entries))
    × ((line : ℕ) → contains (lines (leaders [] entries)) line ≡ contains (lines entries) line)
grouping_lem_example = grouping_lem source_file entries refl

printed_lem_example :
    DecoupleLoopsPrinter.run_on_function memory decouple_end sample 900 debug
    ≡ ok (record {
      out =
          print_groups source_file
            (all_said memory decouple_end sample debug sample_loops)
            none
            (leaders [] (all_said memory decouple_end sample debug sample_loops));
      errs = [];
    })
unfolding has_work said Facts.file_of PtrMap.find
printed_lem_example = printed_lem memory decouple_end sample debug 900 sample_loops ready refl

extent_lem_example :
    let x =
      extend_blocks memory decouple_end sample debug
        (100 ∷ [])
        (start memory decouple_end sample debug none) in
    (10 ≤ x.last_line)
    × (x.first_line ≤ x.last_line)
    × (contains (lines_of memory decouple_end sample debug (1 ∷ 2 ∷ 3 ∷ [])) x.last_line ≡ true)
    × (contains (lines_of memory decouple_end sample debug (1 ∷ 2 ∷ 3 ∷ [])) x.first_line ≡ true)
    × (x.first_line ≡ first_of (lines_of memory decouple_end sample debug (1 ∷ 2 ∷ 3 ∷ [])))
unfolding lines_of
extent_lem_example = extent_lem memory decouple_end sample debug (100 ∷ []) none 10 refl

outputs_lem_example :
    IsDecided memory decouple_end sample debug sample_loops sample_loops.loops
      (first_working memory decouple_end sample debug sample_loops.loops)
      (DecoupleSourceSplitPrinter.run_on_function memory decouple_end sample debug 900)
unfolding get_li PtrMap.find
outputs_lem_example = outputs_lem memory decouple_end sample debug 900 600 refl
