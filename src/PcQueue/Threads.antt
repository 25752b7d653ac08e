-- ===== src/PcQueue/Threads.antt =====
-- test/pcqueue.cpp: the steps of its threads.
use icsa_dswp.Prelude.{ℕ, suc, ◌+◌, Bool, true, false, List, [], ◌∷◌, ltb, if◌then◌else◌}
use icsa_dswp.PcQueue.{
  f, PcQueue, new_queue, produce, Turn, blocked, undefined_front, moved, Consumer, absent, starting,
  at_test, in_wait, holding, joining, finished, begin_consume, end_consume, Producer, creating,
  producing, waiting, returned, Thread, main, first, second, third, Pipeline,
}

-- `pthread_join` goes on once the thread has returned.
abbrev pub is_finished : Consumer → Bool
is_finished finished = true
is_finished _ = false

-- what `consumer1` and `consumer2` have of the shared state: themselves, the queue that they read,
-- the one that they own and write, and the thread that they create
pub record Relay : Type 0 where
  pub self : Consumer
  pub source : PcQueue
  pub sink : PcQueue
  pub next : Consumer

abbrev pub taking : (sink : PcQueue) (next : Consumer) → Turn (Consumer × PcQueue) → Turn Relay
taking sink next blocked = blocked
taking sink next undefined_front = undefined_front
taking sink next (moved (c, q)) = moved (record { self = c; source = q; sink = sink; next = next })

-- the common body of `consumer1` and `consumer2`
unfoldable pub relay : ℕ → (self : Consumer) (source sink : PcQueue) (next : Consumer) → Turn Relay
unfolding produce begin_consume end_consume
relay n absent source sink next = blocked
relay n starting source sink next =
    moved (record { self = at_test 0; source = source; sink = new_queue; next = starting })
relay n (at_test i) source sink next =
    if ltb i n
    then taking sink next (begin_consume i source)
    else moved (record { self = joining; source = source; sink = sink; next = next })
relay n (in_wait i) source sink next = taking sink next (end_consume i source)
relay n (holding i element) source sink next = moved (record {
  self = at_test (suc i);
  source = source;
  sink = produce (f element) sink;
  next = next;
})
relay n joining source sink next =
    if is_finished next
    then moved (record { self = finished; source = source; sink = sink; next = next })
    else blocked
relay n finished source sink next = blocked

abbrev pub with_relay₁ : Pipeline → Turn Relay → Turn Pipeline
with_relay₁ p blocked = blocked
with_relay₁ p undefined_front = undefined_front
with_relay₁ p (moved r) =
    moved (record p { consumer₁ = r.self; queue₁ = r.source; queue₂ = r.sink; consumer₂ = r.next })

abbrev pub with_relay₂ : Pipeline → Turn Relay → Turn Pipeline
with_relay₂ p blocked = blocked
with_relay₂ p undefined_front = undefined_front
with_relay₂ p (moved r) =
    moved (record p { consumer₂ = r.self; queue₂ = r.source; queue₃ = r.sink; consumer₃ = r.next })

unfoldable pub consumer1 : ℕ → Pipeline → Turn Pipeline
unfolding relay
consumer1 n p = with_relay₁ p (relay n p.consumer₁ p.queue₁ p.queue₂ p.consumer₂)

unfoldable pub consumer2 : ℕ → Pipeline → Turn Pipeline
unfolding relay
consumer2 n p = with_relay₂ p (relay n p.consumer₂ p.queue₂ p.queue₃ p.consumer₃)

-- what `consumer3` has of the shared state
pub record Adder : Type 0 where
  pub self : Consumer
  pub source : PcQueue
  pub sum : ℕ

abbrev pub adding : (sum : ℕ) → Turn (Consumer × PcQueue) → Turn Adder
adding sum blocked = blocked
adding sum undefined_front = undefined_front
adding sum (moved (c, q)) = moved (record { self = c; source = q; sum = sum })

unfoldable pub add_up : ℕ → (self : Consumer) (source : PcQueue) (sum : ℕ) → Turn Adder
unfolding begin_consume end_consume
add_up n absent source sum = blocked
add_up n starting source sum = moved (record { self = at_test 0; source = source; sum = 0 })
add_up n (at_test i) source sum =
    if ltb i n
    then adding sum (begin_consume i source)
    else moved (record { self = finished; source = source; sum = sum })
add_up n (in_wait i) source sum = adding sum (end_consume i source)
add_up n (holding i element) source sum =
    moved (record { self = at_test (suc i); source = source; sum = sum + f element })
add_up n joining source sum = blocked
add_up n finished source sum = blocked

abbrev pub with_adder : Pipeline → Turn Adder → Turn Pipeline
with_adder p blocked = blocked
with_adder p undefined_front = undefined_front
with_adder p (moved a) = moved (record p { consumer₃ = a.self; queue₃ = a.source; sum = a.sum })

unfoldable pub consumer3 : ℕ → Pipeline → Turn Pipeline
unfolding add_up
consumer3 n p = with_adder p (add_up n p.consumer₃ p.queue₃ p.sum)

-- what `parallel_sum` has of the state, but for `sum`
pub record Caller : Type 0 where
  pub self : Producer
  pub sink : PcQueue
  pub next : Consumer

unfoldable pub call :
    ℕ → (self : Producer) (sink : PcQueue) (next : Consumer) (sum : ℕ) → Turn Caller
unfolding produce
call n creating sink next sum =
    moved (record { self = producing 0; sink = new_queue; next = starting })
call n (producing i) sink next sum =
    if ltb i n
    then moved (record { self = producing (suc i); sink = produce (f i) sink; next = next })
    else moved (record { self = waiting; sink = sink; next = next })
call n waiting sink next sum =
    if is_finished next
    then moved (record { self = returned sum; sink = sink; next = next })
    else blocked
call n (returned result) sink next sum = blocked

abbrev pub with_caller : Pipeline → Turn Caller → Turn Pipeline
with_caller p blocked = blocked
with_caller p undefined_front = undefined_front
with_caller p (moved a) =
    moved (record p { producer = a.self; queue₁ = a.sink; consumer₁ = a.next })

unfoldable pub parallel_sum : ℕ → Pipeline → Turn Pipeline
unfolding call
parallel_sum n p = with_caller p (call n p.producer p.queue₁ p.consumer₁ p.sum)

unfoldable pub step : ℕ → Thread → Pipeline → Turn Pipeline
unfolding parallel_sum consumer1 consumer2 consumer3
step n main p = parallel_sum n p
step n first p = consumer1 n p
step n second p = consumer2 n p
step n third p = consumer3 n p

-- Before the call; `sum` has no value yet, so any.
abbrev pub start : (sum : ℕ) → Pipeline
start sum = record {
  producer = creating;
  consumer₁ = absent;
  consumer₂ = absent;
  consumer₃ = absent;
  queue₁ = new_queue;
  queue₂ = new_queue;
  queue₃ = new_queue;
  sum = sum;
}

-- The threads run in the order of a schedule, which passes over a thread that cannot move.
unfoldable pub run : ℕ → List Thread → Pipeline → Turn Pipeline
unfolding step
run n [] p = moved p
run n (t ∷ ts) p = elim (step n t p) [
  | blocked ↦ run n ts p
  | undefined_front ↦ undefined_front
  | moved p' ↦ run n ts p'
]

-- The thread that waits in `pthread_cond_wait` is no longer asleep.
abbrev pub wake : PcQueue → PcQueue
wake q = record q { asleep = false }

-- POSIX lets `pthread_cond_wait` return without a signal.
unfoldable pub wake_spuriously : Thread → Pipeline → Pipeline
wake_spuriously main p = p
wake_spuriously first p = record p { queue₁ = wake p.queue₁ }
wake_spuriously second p = record p { queue₂ = wake p.queue₂ }
wake_spuriously third p = record p { queue₃ = wake p.queue₃ }

-- What may happen next: a thread has a turn, or its wait returns without a signal.
pub data Event : Type 0 where
  turn : Thread → Event
  wakeup : Thread → Event

unfoldable pub happen : ℕ → Event → Pipeline → Turn Pipeline
unfolding step wake_spuriously
happen n (turn t) p = step n t p
happen n (wakeup t) p = moved (wake_spuriously t p)

-- The events happen in the order of a schedule, as the turns do in `run`.
unfoldable pub play : ℕ → List Event → Pipeline → Turn Pipeline
unfolding happen
play n [] p = moved p
play n (e ∷ es) p = elim (happen n e p) [
  | blocked ↦ play n es p
  | undefined_front ↦ undefined_front
  | moved p' ↦ play n es p'
]
