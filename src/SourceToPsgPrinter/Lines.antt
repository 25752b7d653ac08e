-- ===== src/SourceToPsgPrinter/Lines.antt =====
-- The report has for each line exactly the ranks of the components of its instructions.
use icsa_dswp.Prelude.{
  ℕ, ◌≡◌, refl, Bool, true, false, ◌&&◌, ◌||◌, Option, none, some, inl, inr, List, [], ◌∷◌, arith,
  ◌==◌, Option-cases, contains,
}
use icsa_dswp.Std.{Ptr, nullptr}
use icsa_dswp.Std.PtrSet.{insert, contains-insert}
use icsa_dswp.Std.PtrMap
use icsa_dswp.Std.PtrMap.{PtrMap, find-assign}
use icsa_dswp.Outcome.{ok, for_each}
use icsa_dswp.Psg
use icsa_dswp.Psg.{get_scc}
use icsa_dswp.Debug.{File, DebugInfo, or_file, or_else}
use icsa_dswp.SourceToPsgPrinter.{Report, index_of, visit, visit_all}

abbrev pub ranks_at : Report → ℕ → ℕ → Bool
ranks_at r line k = contains (PtrMap.get_or r.line_to_sccs line []) k

module _ (psg : Psg.Pass) (debug : DebugInfo) (ts : List Ptr) where
  abbrev pub scc_at : Ptr → Ptr
  scc_at i = PtrMap.get_or psg.inst_to_scc i nullptr

  -- The instruction is on the line, and its component has the rank.
  abbrev pub puts : Ptr → ℕ → ℕ → Bool
  puts i line k = elim (debug.location i) [
    | none ↦ false
    | some loc ↦ loc.line == line && index_of ts (scc_at i) == k
  ]

  -- Some instruction of the list is and has.
  abbrev pub puts_any : List Ptr → ℕ → ℕ → Bool
  puts_any [] line k = false
  puts_any (i ∷ is) line k = puts i line k || puts_any is line k

  -- the file of the first instruction that has a location
  abbrev pub first_file : List Ptr → Option File
  first_file [] = none
  first_file (i ∷ is) = elim (debug.location i) [ none ↦ first_file is | some loc ↦ some loc.file ]

  abbrev pub AllKnown : List Ptr → Type 0
  AllKnown is = (i : Ptr) → contains is i ≡ true → PtrMap.has_key psg.inst_to_scc i ≡ true

  visit_lem :
      (i : Ptr) (r : Report)
      → PtrMap.has_key psg.inst_to_scc i ≡ true
      → (q : Report) × (visit psg debug ts i r ≡ ok q)
        × ((line k : ℕ) → ranks_at q line k ≡ (puts i line k || ranks_at r line k))
        × (q.file ≡ or_else r.file (first_file (i ∷ [])))
  unfolding visit
  visit_lem i r known = elim (Option-cases (debug.location i)) [
    | inl hidden ↦ (r, rw (hidden, visit), λ line k. ground (arith, hidden), ground (arith, hidden))
    | inr (loc, shown) ↦ (
      record {
        file = or_file r.file loc.file;
        line_to_sccs =
            PtrMap.assign loc.line
              (insert (index_of ts (scc_at i)) (PtrMap.get_or r.line_to_sccs loc.line []))
              r.line_to_sccs;
      },
      rw (shown, visit) (rw (PtrMap.at_lem psg.inst_to_scc i nullptr known)),
      λ line k. ground (
        arith,
        shown,
        find-assign loc.line
            (insert (index_of ts (scc_at i)) (PtrMap.get_or r.line_to_sccs loc.line []))
            r.line_to_sccs line,
        contains-insert (index_of ts (scc_at i)) (PtrMap.get_or r.line_to_sccs loc.line []) k,
      ),
      ground (arith, shown),
    )
  ]

  visits_lem :
      (is : List Ptr) (r : Report)
      → AllKnown is
      → (q : Report) × (for_each (visit psg debug ts) is r ≡ ok q)
        × ((line k : ℕ) → ranks_at q line k ≡ (puts_any is line k || ranks_at r line k))
        × (q.file ≡ or_else r.file (first_file is))
  unfolding for_each
  visits_lem [] r known = (r, refl, λ line k. refl, ground arith)
  visits_lem (i ∷ is) r known =
      let (r₁, ran₁, ranks₁, file₁) = visit_lem i r (known i (ground arith)) in
      let (q, ran₂, ranks₂, file₂) = visits_lem is r₁ (λ j h. known j (ground arith)) in
      (
        q,
        rw ran₁ ran₂,
        λ line k. ground (arith, ranks₁ line k, ranks₂ line k),
        ground (arith, file₁, file₂),
      )

  -- If `getSCC` has an answer for each instruction, the first loop returns. For each line it has
  -- collected exactly the ranks of the components of the instructions on that line, and the file is
  -- the one of the first instruction with a location, if there is one.
  pub visit_all_lem :
      (insts : List Ptr)
      → AllKnown insts
      → (r : Report) × (visit_all psg debug ts insts ≡ ok r)
        × ((line k : ℕ) → ranks_at r line k ≡ puts_any insts line k)
        × (r.file ≡ first_file insts)
  unfolding visit_all PtrMap.find
  visit_all_lem insts known =
      let (r, ran, ranks, file) = visits_lem insts _ known in
      (r, ran, λ line k. ground (arith, ranks line k), ground (arith, file))
