-- ===== src/PcQueue.antt =====
-- test/pcqueue.cpp: a queue between two threads, and a pipeline of four threads that adds up the
-- numbers that the sequential program adds up. What a thread does while it holds a mutex is one
-- step, and so is what it does by itself between two such sections.
pub mod Threads
pub mod Places
pub mod Links
pub mod Relays
pub mod Stops
pub mod Ends
pub mod Sums
pub mod Running
pub mod Invariant
pub mod Progress
pub mod Turns
pub mod Schedules
pub mod Primes
pub mod Bounds
pub mod Spurious
use Prim.Native.Nat.{◌*◌, ◌%◌}
use icsa_dswp.Prelude.{
  ℕ, zero, suc, ◌+◌, ◌<◌, Bool, true, false, List, [], ◌∷◌, ◌++◌, ◌==◌, ltb, if◌then◌else◌,
}

-- `i * i` as an `int` of 32 bits, kept modulo 2 ^ 32
abbrev pub square : ℕ → ℕ
square i = (i * i) % 4294967296

-- `i * i > n`, where the numbers from 2 ^ 31 on are the negative ones
unfoldable pub exceeds : (n i : ℕ) → Bool
exceeds n i = if ltb (square i) 2147483648 then ltb n (square i) else false

-- The loop of `is_prime`, whose rounds are at most its fuel.
unfoldable pub trial : ℕ → (n i : ℕ) → Bool
unfolding exceeds
trial zero n i = true
trial (suc fuel) n i = elim (exceeds n i) [
  | true ↦ true
  | false ↦ elim (n % i == 0) [ true ↦ false | false ↦ trial fuel n (suc i) ]
]

unfoldable pub is_prime : ℕ → Bool
unfolding trial
is_prime n = trial n n 2

-- `MAX_F`
abbrev pub max_f : ℕ
max_f = 10000

-- the rounds of the loop of `f` from `i`
unfoldable pub count_primes : (rounds i num result : ℕ) → ℕ
unfolding is_prime
count_primes zero i num result = result
count_primes (suc rounds) i num result =
    count_primes rounds (suc i) num (result + (if is_prime ((i * num + 1) % max_f) then 1 else 0))

unfoldable pub f : ℕ → ℕ
unfolding count_primes
f num = count_primes 9997 3 num 0

-- the rounds of the loop of `sequential_sum` from `i`
unfoldable pub add_rounds : (rounds i sum : ℕ) → ℕ
add_rounds zero i sum = sum
add_rounds (suc rounds) i sum = add_rounds rounds (suc i) (sum + f (f (f (f i))))

unfoldable pub sequential_sum : ℕ → ℕ
unfolding add_rounds
sequential_sum n = add_rounds n 0 0

-- `pc_queue<long>`: its elements, and whether its consumer is asleep on `data_available`. One
-- thread consumes from a queue of the program.
pub record PcQueue : Type 0 where
  pub elements : List ℕ
  pub asleep : Bool

abbrev pub new_queue : PcQueue
new_queue = record { elements = []; asleep = false }

-- `produce`, whose signal wakes the thread that is asleep
unfoldable pub produce : ℕ → PcQueue → PcQueue
produce element q = record { elements = q.elements ++ (element ∷ []); asleep = false }

-- A thread has nothing to do, or reads the front of an empty queue, or goes on.
pub data Turn {ℓ} (A : Type ℓ) : Type ℓ where
  blocked : Turn A
  undefined_front : Turn A
  moved : A → Turn A

-- Where a consumer stands: not yet created, before its loop, at the test of round `i`, in
-- `pthread_cond_wait`, with the element that it took in round `i`, at `pthread_join`, returned.
pub data Consumer : Type 0 where
  absent : Consumer
  starting : Consumer
  at_test : (i : ℕ) → Consumer
  in_wait : (i : ℕ) → Consumer
  holding : (i element : ℕ) → Consumer
  joining : Consumer
  finished : Consumer

-- `front` and `pop`
unfoldable pub pop : (i : ℕ) → PcQueue → Turn (Consumer × PcQueue)
pop i q = elim q.elements [
  | [] ↦ undefined_front
  | element ∷ rest ↦ moved (holding i element, record q { elements = rest })
]

-- `consume` up to the end of it or of `pthread_cond_wait`
unfoldable pub begin_consume : (i : ℕ) → PcQueue → Turn (Consumer × PcQueue)
unfolding pop
begin_consume i q = elim q.elements [
  | [] ↦ moved (in_wait i, record q { asleep = true })
  | element ∷ rest ↦ pop i q
]

-- The rest of `consume`, once the thread is awake: by the signal of `produce`, or without one,
-- which is an event of its own (`wakeup` in PcQueue/Threads).
unfoldable pub end_consume : (i : ℕ) → PcQueue → Turn (Consumer × PcQueue)
unfolding pop
end_consume i q = elim q.asleep [ true ↦ blocked | false ↦ pop i q ]

-- the thread of `parallel_sum`
pub data Producer : Type 0 where
  creating : Producer
  producing : (i : ℕ) → Producer
  waiting : Producer
  returned : (sum : ℕ) → Producer

pub data Thread : Type 0 where
  main : Thread
  first : Thread
  second : Thread
  third : Thread

-- The threads, the three queues with the one that each consumer reads first, and `sum`.
pub record Pipeline : Type 0 where
  pub producer : Producer
  pub consumer₁ : Consumer
  pub consumer₂ : Consumer
  pub consumer₃ : Consumer
  pub queue₁ : PcQueue
  pub queue₂ : PcQueue
  pub queue₃ : PcQueue
  pub sum : ℕ
