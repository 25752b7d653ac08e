-- ===== src/PcQueue/Turns.antt =====
-- The pipeline of test/pcqueue.cpp under turns of its threads, without wakeups.
use Prim.Native.Nat.{◌*◌}
use icsa_dswp.Prelude.{
  ℕ, ◌+◌, ◌<◌, ◌≤◌, ◌≡◌, ◌⊎◌, refl, sym, ap, ◌∙◌, subst, true, false, inl, inr, List, [], ◌∷◌, ◌++◌,
  length, arith, Bool-cases,
}
use icsa_dswp.PcQueue.{
  sequential_sum, Turn, blocked, moved, Producer, creating, producing, waiting, returned, Thread,
  Pipeline,
}
use icsa_dswp.PcQueue.Threads.{step, start, run}
use icsa_dswp.PcQueue.Ends.{is_done}
use icsa_dswp.PcQueue.Running.{IsRunning, IsResult, total, start-IsRunning}
use icsa_dswp.PcQueue.Invariant.{step_lem}
use icsa_dswp.PcQueue.Places.{apart}
use icsa_dswp.PcQueue.Progress.{CanMove, moves}

-- The thread has a turn in the schedule.
abbrev pub IsIn : Thread → List Thread → Type 0
IsIn t [] = ⊥
IsIn t (u ∷ ts) = (t ≡ u) ⊎ IsIn t ts

abbrev pub concat : List (List Thread) → List Thread
concat [] = []
concat (round ∷ rounds) = round ++ concat rounds

-- Each thread has a turn in each round.
abbrev pub AreFair : List (List Thread) → Type 0
AreFair [] = Unit
AreFair (round ∷ rounds) = ((t : Thread) → IsIn t round) × AreFair rounds

-- What holds after the turns of a schedule, which leave at most so many steps.
abbrev Runs : (n : ℕ) (p : Pipeline) (bound : ℕ) → Turn Pipeline → Type 0
Runs n p bound t =
    (p' : Pipeline) × (t ≡ moved p')
    × IsRunning n p'
    × (total n p' ≤ bound)
    × (is_done p.producer ≡ true → is_done p'.producer ≡ true)

moved_inj : {p q : Pipeline} → ◌≡◌ {A = Turn Pipeline} (moved p) (moved q) → p ≡ q
moved_inj {p} {q} h = ap (λ t. elim t [ moved x ↦ x | _ ↦ p ]) h

module _ (n : ℕ) where
  run_blocked :
      (t : Thread) (ts : List Thread) (p : Pipeline)
      → step n t p ≡ blocked
      → run n ts p ≡ run n (t ∷ ts) p
  unfolding run
  run_blocked t ts p h = rw (h, run)

  run_none : (p : Pipeline) → run n [] p ≡ moved p
  unfolding run
  run_none p = refl

  run_moved :
      (t : Thread) (ts : List Thread) (p p' : Pipeline)
      → step n t p ≡ moved p'
      → run n (t ∷ ts) p ≡ run n ts p'
  unfolding run
  run_moved t ts p p' h = rw (h, run)

  run-append :
      (ts us : List Thread) (p p' : Pipeline)
      → IsRunning n p
      → run n ts p ≡ moved p'
      → run n (ts ++ us) p ≡ run n us p'
  unfolding run
  run-append [] us p p' r h = ap (λ q. run n us q) (moved_inj h)
  run-append (t ∷ ts) us p p' r h = elim (step_lem n p r t) [
    | inl stop ↦
        sym (run_blocked t (ts ++ us) p stop)
        ∙ run-append ts us p p' r (run_blocked t ts p stop ∙ h)
    | inr (p₁, went, r₁, fewer, done₁) ↦
        run_moved t (ts ++ us) p p₁ went
        ∙ run-append ts us p₁ p' r₁ (sym (run_moved t ts p p₁ went) ∙ h)
  ]

  pub run_lem :
      (ts : List Thread) (p : Pipeline) → IsRunning n p → Runs n p (total n p) (run n ts p)
  unfolding run
  run_lem [] p r = (p, refl, r, omega arith, λ h. h)
  run_lem (t ∷ ts) p r = elim (step_lem n p r t) [
    | inl stop ↦ subst (Runs n p (total n p)) (run_blocked t ts p stop) (run_lem ts p r)
    | inr (p₁, went, r₁, fewer, done₁) ↦
        let (p₂, ran, r₂, less, done₂) = run_lem ts p₁ r₁ in
        (p₂, run_moved t ts p p₁ went ∙ ran, r₂, omega (arith, fewer, less), λ h. done₂ (done₁ h))
  ]

  -- If a thread that can move has a turn, steps were taken.
  turn_lem :
      (t : Thread) (ts : List Thread) (p q : Pipeline)
      → IsIn t ts
      → step n t p ≡ moved q
      → IsRunning n p
      → (p' : Pipeline) × (run n ts p ≡ moved p') × IsRunning n p' × (total n p' < total n p)
  turn_lem t [] p q i m r = absurd i
  turn_lem t (u ∷ ts) p q i m r = elim (step_lem n p r u) [
    | inr (p₁, went, r₁, fewer, done₁) ↦
        let (p₂, ran, r₂, less, done₂) = run_lem ts p₁ r₁ in
        (p₂, run_moved u ts p p₁ went ∙ ran, r₂, omega (arith, fewer, less))
    | inl stop ↦ elim i [
      | inl same ↦ absurd (apart m (ap (λ v. step n v p) same ∙ stop))
      | inr later ↦
          let (p₂, ran, r₂, less) = turn_lem t ts p q later m r in
          (p₂, sym (run_blocked u ts p stop) ∙ ran, r₂, less)
    ]
  ]

  rounds_lem :
      (rounds : List (List Thread)) (p : Pipeline)
      → AreFair rounds
      → IsRunning n p
      → (p' : Pipeline) × (run n (concat rounds) p ≡ moved p')
        × IsRunning n p'
        × ((is_done p'.producer ≡ true) ⊎ (total n p' + length rounds ≤ total n p))
  rounds_lem [] p fair r = (p, run_none p, r, inr (omega arith))
  rounds_lem (ts ∷ rounds) p fair r = elim (Bool-cases (is_done p.producer)) [
    | inl over ↦
        let (p₁, ran₁, r₁, less₁, done₁) = run_lem ts p r in
        let (p₂, ran₂, r₂, less₂, done₂) = run_lem (concat rounds) p₁ r₁ in
        (p₂, run-append ts (concat rounds) p p₁ r ran₁ ∙ ran₂, r₂, inl (done₂ (done₁ over)))
    | inr running ↦
        let (t, q, m) = moves n p r running in
        let (p₁, ran₁, r₁, less₁) = turn_lem t ts p q (fair.0 t) m r in
        let (p₂, ran₂, r₂, end) = rounds_lem rounds p₁ fair.1 r₁ in
        (
          p₂,
          run-append ts (concat rounds) p p₁ r ran₁ ∙ ran₂,
          r₂,
          elim end [ inl over ↦ inl over | inr less₂ ↦ inr (omega (arith, less₁, less₂)) ],
        )
  ]

done_result :
    (n : ℕ) (c : Producer) → IsResult n c → is_done c ≡ true → c ≡ returned (sequential_sum n)
done_result n creating r h = cc
done_result n (producing i) r h = cc
done_result n waiting r h = cc
done_result n (returned result) r h = ap returned r

module _ (n sum : ℕ) where
  -- No thread reads the front of an empty queue, and what `parallel_sum` has returned is the sum.
  pub turns_lem :
      (ts : List Thread) → (p : Pipeline) × (run n ts (start sum) ≡ moved p) × IsResult n p.producer
  turns_lem ts =
      let (p, ran, r, less, done) = run_lem n ts (start sum) (start-IsRunning n sum) in
      (p, ran, r.result)

  -- After any schedule some thread can move, unless `parallel_sum` has returned.
  progress_lem :
      (ts : List Thread) (p : Pipeline)
      → run n ts (start sum) ≡ moved p
      → is_done p.producer ≡ false
      → CanMove n p
  progress_lem ts p ran running =
      let (p', ran', r, less, done) = run_lem n ts (start sum) (start-IsRunning n sum) in
      moves n p (subst (IsRunning n) (moved_inj (sym ran' ∙ ran)) r) running

  -- Fair rounds, if they are enough, lead to the end.
  pub fair_turns_lem :
      (rounds : List (List Thread))
      → AreFair rounds
      → 10 * n + 18 < length rounds
      → (p : Pipeline) × (run n (concat rounds) (start sum) ≡ moved p)
        × (p.producer ≡ returned (sequential_sum n))
  fair_turns_lem rounds fair enough =
      let (p, ran, r, end) = rounds_lem n rounds (start sum) fair (start-IsRunning n sum) in
      (
        p,
        ran,
        done_result n p.producer r.result
            (elim end [ inl over ↦ over | inr less ↦ absurd (omega (arith, less, enough)) ]),
      )
