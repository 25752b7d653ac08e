-- ===== src/PcQueue/Schedules.antt =====
-- The pipeline of test/pcqueue.cpp under schedules of turns and wakeups.
use Prim.Native.Nat.{◌*◌}
use icsa_dswp.Prelude.{ℕ, suc, ◌+◌, ◌<◌, ◌≡◌, refl, ap, ◌∙◌, List, [], ◌∷◌, ◌++◌, length, arith}
use icsa_dswp.PcQueue.{sequential_sum, blocked, undefined_front, moved, returned, Thread, Pipeline}
use icsa_dswp.PcQueue.Threads.{step, start, run, Event, turn, wakeup, happen, play}
use icsa_dswp.PcQueue.Running.{IsResult}
use icsa_dswp.PcQueue.Turns.{AreFair, concat, turns_lem, fair_turns_lem}

-- Every return of `pthread_cond_wait` comes after a signal: none of the events is a wakeup.
abbrev pub AreSignalled : List Event → Type 0
AreSignalled [] = Unit
AreSignalled (turn t ∷ es) = AreSignalled es
AreSignalled (wakeup t ∷ es) = ⊥

abbrev pub turns : List Event → List Thread
turns [] = []
turns (turn t ∷ es) = t ∷ turns es
turns (wakeup t ∷ es) = turns es

abbrev pub events : List (List Event) → List Event
events [] = []
events (round ∷ rounds) = round ++ events rounds

abbrev pub turns_of : List (List Event) → List (List Thread)
turns_of [] = []
turns_of (round ∷ rounds) = turns round ∷ turns_of rounds

turns-append : (es ds : List Event) → turns (es ++ ds) ≡ turns es ++ turns ds
turns-append [] ds = refl
turns-append (turn t ∷ es) ds = ap (λ ts. t ∷ ts) (turns-append es ds)
turns-append (wakeup t ∷ es) ds = turns-append es ds

turns-events : (rounds : List (List Event)) → turns (events rounds) ≡ concat (turns_of rounds)
turns-events [] = refl
turns-events (round ∷ rounds) =
    turns-append round (events rounds) ∙ ap (λ ts. turns round ++ ts) (turns-events rounds)

length-turns_of : (rounds : List (List Event)) → length (turns_of rounds) ≡ length rounds
length-turns_of [] = refl
length-turns_of (round ∷ rounds) = ap suc (length-turns_of rounds)

-- Without wakeups the events are turns.
play-run :
    (n : ℕ) (es : List Event) (p : Pipeline) → AreSignalled es → play n es p ≡ run n (turns es) p
unfolding play run happen
play-run n [] p signalled = refl
play-run n (turn t ∷ es) p signalled =
    elim (step n t p)
      as (λ o.
        elim o [
          | blocked ↦ play n es p
          | undefined_front ↦ undefined_front
          | moved p' ↦ play n es p'
        ]
        ≡ elim o [
          | blocked ↦ run n (turns es) p
          | undefined_front ↦ undefined_front
          | moved p' ↦ run n (turns es) p'
        ]) [
          | blocked ↦ play-run n es p signalled
          | undefined_front ↦ refl
          | moved p' ↦ play-run n es p' signalled
        ]
play-run n (wakeup t ∷ es) p signalled = absurd signalled

module _ (n sum : ℕ) where
  -- Under every schedule of the four threads in which `pthread_cond_wait` returns only after a
  -- signal, no thread reads the front of an empty queue, and if `parallel_sum` has returned, it has
  -- returned the sum of the sequential program.
  pub schedule_lem :
      (es : List Event)
      → AreSignalled es
      → (p : Pipeline) × (play n es (start sum) ≡ moved p) × IsResult n p.producer
  schedule_lem es signalled =
      let (p, ran, result) = turns_lem n sum (turns es) in
      (p, play-run n es (start sum) signalled ∙ ran, result)

  -- Under a schedule of more than `10 * n + 18` rounds, in each of which every thread has a turn,
  -- and in which `pthread_cond_wait` returns only after a signal, `parallel_sum` returns the sum of
  -- the sequential program.
  pub fair_lem :
      (rounds : List (List Event))
      → AreFair (turns_of rounds)
      → AreSignalled (events rounds)
      → 10 * n + 18 < length rounds
      → (p : Pipeline) × (play n (events rounds) (start sum) ≡ moved p)
        × (p.producer ≡ returned (sequential_sum n))
  fair_lem rounds fair signalled enough =
      let (p, ran, result) =
        fair_turns_lem n sum (turns_of rounds) fair
          (omega (arith, length-turns_of rounds, enough)) in
      (
        p,
        play-run n (events rounds) (start sum) signalled
            ∙ ap (λ ts. run n ts (start sum)) (turns-events rounds)
            ∙ ran,
        result,
      )
