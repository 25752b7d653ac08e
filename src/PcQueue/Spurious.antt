-- ===== src/PcQueue/Spurious.antt =====
-- A wait of test/pcqueue.cpp that returns without a signal.
use icsa_dswp.Prelude.{ℕ, ◌<◌, true, ltb, ◌≡◌, refl, [], ◌∷◌, arith}
use icsa_dswp.PcQueue.{
  begin_consume, end_consume, pop, undefined_front, moved, main, first, Pipeline, producing,
  in_wait, starting,
}
use icsa_dswp.PcQueue.Threads.{
  call, relay, consumer1, parallel_sum, step, start, turn, wakeup, happen, play, wake_spuriously,
}

-- If the first consumer gets to its wait before there is an element and then wakes up without a
-- signal, it reads the front of an empty queue, for every positive number of elements.
pub spurious_lem :
    (n sum : ℕ)
    → 0 < n
    → (p : Pipeline) × (play n (turn main ∷ turn first ∷ turn first ∷ []) (start sum) ≡ moved p)
      × (play n (wakeup first ∷ turn first ∷ []) p ≡ undefined_front)
unfolding play happen step parallel_sum call consumer1 relay begin_consume end_consume pop
    wake_spuriously
spurious_lem n sum positive =
    let more : ltb 0 n ≡ true = ground (arith, positive) in
    (
      record (start sum) {
        producer = producing 0;
        consumer₁ = in_wait 0;
        consumer₂ = starting;
        queue₁ = record { elements = []; asleep = true };
      },
      rw (more, play, happen, step, consumer1, relay, begin_consume),
      refl,
    )
