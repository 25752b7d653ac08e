-- ===== src/DecoupleLoopsPrinter/Facts.antt =====
-- What the printer is to say of the instructions of the loops with work.
use mathlib.Core.List.{append-nil, append_assoc}
use icsa_dswp.Prelude.{
  ℕ, ◌≡◌, refl, sym, ap, ◌∙◌, Option, List, [], ◌∷◌, ◌++◌, none, some, arith, if◌then◌else◌, ◌+◌,
  length,
}
use icsa_dswp.Std.{Ptr}
use icsa_dswp.Ir.{Function, LoopInfo}
use icsa_dswp.DecoupleLoops
use icsa_dswp.DecoupleLoops.{Memory, has_work, get_li}
use icsa_dswp.DecoupleLoops.Ready.{filed_work, filed_iter}
use icsa_dswp.Debug.{File, DebugInfo, or_else, or_else-none, or_else_assoc}
use icsa_dswp.DecoupleLoopsPrinter.{Entry, Scan}

-- An instruction that the printer reaches, with its loop and the numbers of its block and loop.
pub record Place : Type 0 where
  pub owner : Ptr
  pub inst : Ptr
  pub bb : ℕ
  pub loop : ℕ

module _ (memory : Memory) (q : DecoupleLoops.Pass) (f : Function) (debug : DebugInfo) where
  -- The instructions that the loop reaches, in order. The blocks of the loops with work are
  -- numbered one after the other, and so are these loops; the loops without work have no numbers.
  abbrev pub reached_insts : (bb n : ℕ) → Ptr → List Ptr → List Place
  reached_insts bb n l [] = []
  reached_insts bb n l (i ∷ is) =
      record { owner = l; inst = i; bb = bb; loop = n } ∷ reached_insts bb n l is

  abbrev pub reached_blocks : (bb n : ℕ) → Ptr → List Ptr → List Place
  reached_blocks bb n l [] = []
  reached_blocks bb n l (b ∷ bs) =
      reached_insts bb n l (f.block_insts b) ++ reached_blocks (bb + 1) n l bs

  abbrev pub reached : LoopInfo → (bb n : ℕ) → List Ptr → List Place
  reached li bb n [] = []
  reached li bb n (l ∷ ls) =
      let idle = reached li bb n ls in
      let rest = reached li (bb + length (li.blocks l)) (n + 1) ls in
      if has_work q l then reached_blocks bb n l (li.blocks l) ++ rest else idle

  -- what is to be said of each instruction that has a location
  unfoldable pub said : List Place → List Entry
  said [] = []
  said (p ∷ r) = elim (debug.location p.inst) [
    | none ↦ said r
    | some loc ↦
        record {
          line = loc.line;
          col = loc.column;
          bb = p.bb;
          loop = p.loop;
          branch = debug.is_branch p.inst;
          work = filed_work memory q p.owner p.inst;
          iter = filed_iter memory q p.owner p.inst;
        }
        ∷ said r
  ]

  -- the file of the first of them
  unfoldable pub file_of : List Place → Option File
  file_of [] = none
  file_of (p ∷ r) = elim (debug.location p.inst) [ none ↦ file_of r | some loc ↦ some loc.file ]

  said-append : (r t : List Place) → said (r ++ t) ≡ said r ++ said t
  unfolding said
  said-append [] t = refl
  said-append (p ∷ r) t = ground (arith, said-append r t)

  file_of-append : (r t : List Place) → file_of (r ++ t) ≡ or_else (file_of r) (file_of t)
  unfolding file_of
  file_of-append [] t = refl
  file_of-append (p ∷ r) t = ground (arith, file_of-append r t)

  -- The state has got what is to be said of the instructions.
  abbrev pub Adds : List Place → Scan → Scan → Type 0
  Adds r s t = (t.entries ≡ s.entries ++ said r) × (t.file ≡ or_else s.file (file_of r))

  pub Adds-none : (s : Scan) → Adds [] s s
  unfolding said file_of
  Adds-none s = (sym (append-nil s.entries), or_else-none s.file)

  pub Adds-append :
      (r t : List Place) (s₀ s₁ s₂ : Scan) → Adds r s₀ s₁ → Adds t s₁ s₂ → Adds (r ++ t) s₀ s₂
  Adds-append r t s₀ s₁ s₂ a b = (
    b.0
        ∙ ap (λ fs. fs ++ said t) a.0
        ∙ append_assoc s₀.entries (said r) (said t)
        ∙ ap (λ fs. s₀.entries ++ fs) (sym (said-append r t)),
    b.1
        ∙ ap (λ g. or_else g (file_of t)) a.1
        ∙ sym (or_else_assoc s₀.file (file_of r) (file_of t))
        ∙ ap (or_else s₀.file) (sym (file_of-append r t)),
  )
