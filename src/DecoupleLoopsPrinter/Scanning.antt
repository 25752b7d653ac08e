-- ===== src/DecoupleLoopsPrinter/Scanning.antt =====
-- What the first loop of the printer collects, and the whole pass.
use mathlib.Core.List.{append-nil}
use icsa_dswp.Prelude.{
  ℕ, suc, ◌+◌, ◌≡◌, refl, sym, ap, ◌∙◌, subst, true, false, inl, inr, Option, List, [], ◌∷◌, ◌++◌,
  none, some, arith, ==_iff, Bool-cases, Option-cases, contains, length,
}
use icsa_dswp.Std.{Ptr}
use icsa_dswp.Std.PtrMap
use icsa_dswp.Outcome.{Outcome, ok, for_each}
use icsa_dswp.Ir.{Function, LoopInfo}
use icsa_dswp.DecoupleLoops
use icsa_dswp.DecoupleLoops.{Memory, has_work, get_li}
use icsa_dswp.DecoupleLoops.Ready.{IsReady, filed_work, filed_iter, is_work_at, is_iter_at}
use icsa_dswp.Debug.{File, Location, DebugInfo, or_file, or_else-none, or_file_lem}
use icsa_dswp.Output.{text}
use icsa_dswp.DecoupleLoopsPrinter.{
  traversed, Entry, Scan, scan_inst, scan_block, scan_loop, scan, print_from, Streams,
  run_on_function,
}
use icsa_dswp.DecoupleLoopsPrinter.Groups.{lines, leaders, print_groups}
use icsa_dswp.DecoupleLoopsPrinter.Grouping.{grouping_lem}
use icsa_dswp.DecoupleLoopsPrinter.Facts.{
  Place, reached_insts, reached_blocks, reached, said, file_of, Adds, Adds-none, Adds-append,
}

module _ (memory : Memory) (q : DecoupleLoops.Pass) (f : Function) (debug : DebugInfo) where
  abbrev Known : Ptr → Type 0
  Known i = PtrMap.has_key (memory.psg_at q.psgp).inst_to_scc i ≡ true

  -- the entry of an instruction
  abbrev entry : Ptr → Ptr → Location → Scan → Entry
  entry l i loc s = record {
    line = loc.line;
    col = loc.column;
    bb = s.bb_count;
    loop = s.loop_count;
    branch = debug.is_branch i;
    work = filed_work memory q l i;
    iter = filed_iter memory q l i;
  }

  -- The scan adds what is to be said of the places, and leaves the counters at these numbers.
  record Scanned (o : Outcome Scan) (r : List Place) (s : Scan) (bb n : ℕ) : Type 0 where
    last : Scan
    ran : o ≡ ok last
    adds : Adds memory q f debug r s last
    blocks : last.bb_count ≡ bb
    loops : last.loop_count ≡ n

  scan_inst_lem :
      (l i : Ptr) (s : Scan)
      → Known i
      → Scanned
          (scan_inst memory q f debug l i s)
          (reached_insts memory q f debug s.bb_count s.loop_count l (i ∷ []))
          s
          s.bb_count
          s.loop_count
  unfolding scan_inst said file_of
  scan_inst_lem l i s here = elim (Option-cases (debug.location i)) [
    | inl hidden ↦ record {
      last = s;
      ran = rw (hidden, scan_inst) refl;
      adds = (
        rw (hidden, said) (sym (append-nil s.entries)),
        rw (hidden, file_of) (or_else-none s.file),
      );
      blocks = refl;
      loops = refl;
    }
    | inr (loc, shown) ↦ record {
      last = record s {
        file = or_file s.file loc.file;
        entries = s.entries ++ entry l i loc s ∷ [];
      };
      ran =
          rw (shown, scan_inst)
            (rw (is_work_at memory q l i here) (rw (is_iter_at memory q l i here) refl));
      adds = (rw (shown, said) refl, rw (shown, file_of) (or_file_lem s.file loc.file));
      blocks = refl;
      loops = refl;
    }
  ]

  scan_insts_lem :
      (l : Ptr) (is : List Ptr) (s : Scan)
      → ((i : Ptr) → contains is i ≡ true → Known i)
      → Scanned
          (for_each (scan_inst memory q f debug l) is s)
          (reached_insts memory q f debug s.bb_count s.loop_count l is)
          s
          s.bb_count
          s.loop_count
  unfolding for_each
  scan_insts_lem l [] s known = record {
    last = s;
    ran = refl;
    adds = Adds-none memory q f debug s;
    blocks = refl;
    loops = refl;
  }
  scan_insts_lem l (i ∷ is) s known =
      let one = scan_inst_lem l i s (known i (ground (arith, ==_iff i i))) in
      let rest = scan_insts_lem l is one.last (λ j h. known j (ground (arith, h))) in
      let same : reached_insts memory q f debug one.last.bb_count one.last.loop_count l is
          ≡ reached_insts memory q f debug s.bb_count s.loop_count l is =
        rw (one.blocks, one.loops) refl in
      record {
        last = rest.last;
        ran = rw one.ran rest.ran;
        adds =
            Adds-append memory q f debug
              (reached_insts memory q f debug s.bb_count s.loop_count l (i ∷ []))
              (reached_insts memory q f debug s.bb_count s.loop_count l is) s one.last rest.last
              one.adds (subst (λ r. Adds memory q f debug r one.last rest.last) same rest.adds);
        blocks = rest.blocks ∙ one.blocks;
        loops = rest.loops ∙ one.loops;
      }

  -- the scan with its counters after a block, and after a loop
  abbrev next_block : Scan → Scan
  next_block s = record s { bb_count = suc s.bb_count }

  abbrev next_loop : Scan → Scan
  next_loop s = record s { loop_count = suc s.loop_count }

  scan_blocks_lem :
      (l : Ptr) (bs : List Ptr) (s : Scan)
      → ((b i : Ptr) → contains bs b ≡ true → contains (f.block_insts b) i ≡ true → Known i)
      → Scanned
          (for_each (scan_block memory q f debug l) bs s)
          (reached_blocks memory q f debug s.bb_count s.loop_count l bs)
          s
          (s.bb_count + length bs)
          s.loop_count
  unfolding for_each scan_block
  scan_blocks_lem l [] s known = record {
    last = s;
    ran = refl;
    adds = Adds-none memory q f debug s;
    blocks = ground arith;
    loops = refl;
  }
  scan_blocks_lem l (b ∷ bs) s known =
      let one =
        scan_insts_lem l (f.block_insts b) s (λ i. known b i (ground (arith, ==_iff b b))) in
      let rest =
        scan_blocks_lem l bs (next_block one.last) (λ c i h. known c i (ground (arith, h))) in
      let same : reached_blocks memory q f debug (suc one.last.bb_count) one.last.loop_count l bs
          ≡ reached_blocks memory q f debug (s.bb_count + 1) s.loop_count l bs =
        ap (λ k. reached_blocks memory q f debug k one.last.loop_count l bs)
          (omega (arith, one.blocks))
        ∙ ap (λ k. reached_blocks memory q f debug (s.bb_count + 1) k l bs) one.loops in
      record {
        last = rest.last;
        ran = rw one.ran rest.ran;
        adds =
            Adds-append memory q f debug
              (reached_insts memory q f debug s.bb_count s.loop_count l (f.block_insts b))
              (reached_blocks memory q f debug (s.bb_count + 1) s.loop_count l bs) s
              (next_block one.last) rest.last one.adds
              (subst (λ r. Adds memory q f debug r (next_block one.last) rest.last) same rest.adds);
        blocks = omega (arith, rest.blocks, one.blocks);
        loops = rest.loops ∙ one.loops;
      }

  scan_loops_lem :
      (li : LoopInfo) (ls : List Ptr) (s : Scan)
      → ((l b i : Ptr)
          → contains ls l ≡ true
          → contains (li.blocks l) b ≡ true
          → contains (f.block_insts b) i ≡ true
          → Known i)
      → (t : Scan) × (for_each (scan_loop memory q f debug li) ls s ≡ ok t)
        × Adds memory q f debug (reached memory q f debug li s.bb_count s.loop_count ls) s t
  unfolding for_each scan_loop
  scan_loops_lem li [] s known = (s, refl, Adds-none memory q f debug s)
  scan_loops_lem li (l ∷ ls) s known = elim (Bool-cases (has_work q l)) [
    | inl work ↦
        let one =
          scan_blocks_lem l (li.blocks l) s (λ b i. known l b i (ground (arith, ==_iff l l))) in
        let (t, ran, adds) =
          scan_loops_lem li ls (next_loop one.last) (λ k b i h. known k b i (ground (arith, h))) in
        let same : reached memory q f debug li one.last.bb_count (suc one.last.loop_count) ls
            ≡ reached memory q f debug li (s.bb_count + length (li.blocks l)) (s.loop_count + 1)
                ls =
          ap (λ k. reached memory q f debug li k (suc one.last.loop_count) ls) one.blocks
          ∙ ap (λ k. reached memory q f debug li (s.bb_count + length (li.blocks l)) k ls)
              (omega (arith, one.loops)) in
        (
          t,
          rw work (rw one.ran ran),
          rw work (
              Adds-append memory q f debug
                (reached_blocks memory q f debug s.bb_count s.loop_count l (li.blocks l))
                (reached memory q f debug li (s.bb_count + length (li.blocks l)) (s.loop_count + 1)
                  ls)
                s (next_loop one.last) t one.adds
                (subst (λ r. Adds memory q f debug r (next_loop one.last) t) same adds)),
        )
    | inr idle ↦
        let (t, ran, a) = scan_loops_lem li ls s (λ k b i h. known k b i (ground (arith, h))) in
        (t, rw idle ran, rw idle a)
  ]

  -- what the streams are to have: the error message without a file, or the entries by their lines
  abbrev pub shown : Option File → List Entry → Streams
  shown none es = record { out = []; errs = text "ERROR: No debugging information found!\n" ∷ [] }
  shown (some file) es = record { out = print_groups file es none (leaders [] es); errs = [] }

  shown_lem :
      (o : Option File) (es : List Entry)
      → contains (lines es) traversed ≡ false
      → Path Streams
          (elim o [
            | none ↦ record {
              out = [];
              errs = text "ERROR: No debugging information found!\n" ∷ [];
            }
            | some file ↦ record { out = print_from file (length es) 0 none es; errs = [] }
          ])
          (shown o es)
  shown_lem none es proper = refl
  shown_lem (some file) es proper =
      ap (λ out. record { out = out; errs = [] }) (grouping_lem file es proper).0

  -- what the printer is to say, from the first block and the first loop
  abbrev pub all_said : LoopInfo → List Entry
  all_said li = said memory q f debug (reached memory q f debug li 0 0 li.loops)

  -- Once the pass is ready and no instruction is on the line 2 ^ 32 - 1, the printer returns.
  -- Without a location on the instructions of the loops with work it prints only the error message.
  -- Otherwise it prints, under the name of the file of the first location, for exactly these
  -- instructions in order the line, the column, the number of the block and of the loop among those
  -- of the loops with work, and the marks of a branch and of what the queries answer, grouped by
  -- lines.
  pub printed_lem :
      (at_f : Ptr) (li : LoopInfo)
      → IsReady memory q f at_f li
      → contains (lines (all_said li)) traversed ≡ false
      → run_on_function memory q f at_f debug
        ≡ ok (
            shown
              (file_of memory q f debug (reached memory q f debug li 0 0 li.loops))
              (all_said li))
  unfolding run_on_function scan
  printed_lem at_f li ready proper =
      let (s, ran, (all, file)) =
        scan_loops_lem li li.loops
          (record { file = none; entries = []; bb_count = 0; loop_count = 0 }) ready.known in
      let fits : contains (lines s.entries) traversed ≡ false =
        ap (λ es. contains (lines es) traversed) all ∙ proper in
      rw (ready.listed, ready.there, run_on_function)
        (rw ran (
          ap (λ o. ok o)
            (shown_lem s.file s.entries fits
              ∙ ap (λ o. shown o s.entries) file
              ∙ ap (shown (file_of memory q f debug (reached memory q f debug li 0 0 li.loops)))
                  all)))
