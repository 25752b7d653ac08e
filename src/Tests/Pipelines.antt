-- ===== src/Tests/Pipelines.antt =====
-- The theorems on test/pcqueue.cpp at small numbers of elements.
use icsa_dswp.Prelude.{ℕ, zero, suc, ◌≡◌, ◌↔◌, refl, true, false, inl, inr, List, [], ◌∷◌, arith}
use icsa_dswp.PcQueue.{
  is_prime, sequential_sum, undefined_front, moved, returned, main, first, second, third, Pipeline,
}
use icsa_dswp.PcQueue.Threads.{start, Event, turn, wakeup, play}
use icsa_dswp.PcQueue.Running.{IsResult}
use icsa_dswp.PcQueue.Turns.{IsIn, AreFair}
use icsa_dswp.PcQueue.Schedules.{turns_of, events, schedule_lem, fair_lem}
use icsa_dswp.PcQueue.Primes.{IsProduct, is_prime_lem}
use icsa_dswp.PcQueue.Spurious.{spurious_lem}

is_prime_91 : is_prime 91 ≡ false
unfolding is_prime
is_prime_91 = refl

is_prime_one : is_prime 1 ≡ true
unfolding is_prime
is_prime_one = refl

abbrev some_turns : List Event
some_turns =
    turn main
    ∷ turn first
    ∷ turn first
    ∷ turn main
    ∷ turn second
    ∷ turn first
    ∷ turn first
    ∷ turn main
    ∷ []

schedule_lem_example :
    (p : Pipeline) × (play 1 some_turns (start 5) ≡ moved p) × IsResult 1 p.producer
schedule_lem_example = schedule_lem 1 5 some_turns tt

-- rounds in which the last thread of the pipeline has the first turn
abbrev rounds : ℕ → List (List Event)
rounds zero = []
rounds (suc k) = (turn third ∷ turn second ∷ turn first ∷ turn main ∷ []) ∷ rounds k

rounds-AreFair : (k : ℕ) → AreFair (turns_of (rounds k))
rounds-AreFair zero = tt
rounds-AreFair (suc k) = (
  λ t. elim t as (λ u. IsIn u (third ∷ second ∷ first ∷ main ∷ [])) [
    | third ↦ inl refl
    | second ↦ inr (inl refl)
    | first ↦ inr (inr (inl refl))
    | main ↦ inr (inr (inr (inl refl)))
  ],
  rounds-AreFair k,
)

fair_lem_example :
    (p : Pipeline) × (play 1 (events (rounds 29)) (start 5) ≡ moved p)
    × (p.producer ≡ returned (sequential_sum 1))
fair_lem_example = fair_lem 1 5 (rounds 29) (rounds-AreFair 29) tt (omega arith)

is_prime_lem_example : (is_prime 91 ≡ false) ↔ IsProduct 91
is_prime_lem_example = is_prime_lem 91 (omega arith)

spurious_lem_example :
    (p : Pipeline) × (play 3 (turn main ∷ turn first ∷ turn first ∷ []) (start 0) ≡ moved p)
    × (play 3 (wakeup first ∷ turn first ∷ []) p ≡ undefined_front)
spurious_lem_example = spurious_lem 3 0 (omega arith)
