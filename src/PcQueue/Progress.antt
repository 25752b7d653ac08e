-- ===== src/PcQueue/Progress.antt =====
-- Which thread of test/pcqueue.cpp can move.
use icsa_dswp.Prelude.{ℕ, ◌≡◌, sym, ap, ◌∙◌, subst, false, inl, inr, not_both}
use icsa_dswp.PcQueue.{f, moved, Thread, main, first, second, third, Pipeline}
use icsa_dswp.PcQueue.Threads.{
  is_finished, with_caller, with_relay₁, with_relay₂, with_adder, step, parallel_sum, consumer1,
  consumer2, consumer3,
}
use icsa_dswp.PcQueue.Places.{sent, is_absent, is_idle}
use icsa_dswp.PcQueue.Relays.{Stage, relay_lem}
use icsa_dswp.PcQueue.Stops.{relay_stops}
use icsa_dswp.PcQueue.Ends.{made, is_done, call_lem, call_stops}
use icsa_dswp.PcQueue.Sums.{Back, add_up_lem, add_up_stops}
use icsa_dswp.PcQueue.Running.{IsRunning, relay₁_of, relay₂_of, adder_of}

abbrev pub CanMove : ℕ → Pipeline → Type 0
CanMove n p = (t : Thread) × (p' : Pipeline) × (step n t p ≡ moved p')

module _ (n : ℕ) (p : Pipeline) (r : IsRunning n p) where
  third_moves :
      sent n p.consumer₂ ≡ n
      → is_absent p.consumer₃ ≡ false
      → is_finished p.consumer₃ ≡ false
      → CanMove n p
  unfolding step consumer3
  third_moves all live running =
      elim (add_up_lem n (sent n p.consumer₂) p.queue₃ p.sum p.consumer₃ r.back) [
        | inr (a', went, a) ↦ (third, _, ap (with_adder p) went)
        | inl stop ↦ absurd (
            not_both
              (add_up_stops n p.queue₃ p.sum p.consumer₃
                (subst (λ m. Back n m (adder_of p)) all r.back) live stop)
              running)
      ]

  second_moves :
      sent n p.consumer₁ ≡ n
      → is_absent p.consumer₂ ≡ false
      → is_finished p.consumer₂ ≡ false
      → CanMove n p
  unfolding step consumer2
  second_moves all live running =
      elim (relay_lem n (λ i. f (f i)) (sent n p.consumer₁) p.queue₂ p.queue₃ p.consumer₃
        p.consumer₂ r.stage₂) [
          | inr (r', went, a) ↦ (second, _, ap (with_relay₂ p) went)
          | inl stop ↦
              elim (relay_stops n (λ i. f (f i)) p.queue₂ p.queue₃ p.consumer₃ p.consumer₂
                (subst (λ m. Stage n (λ i. f (f i)) m (relay₂_of p)) all r.stage₂) live stop) [
                  | inl over ↦ absurd (not_both over running)
                  | inr (join, unfinished) ↦
                      third_moves (ap (sent n) join) (sym r.stage₂.creates ∙ ap is_idle join)
                        unfinished
                ]
        ]

  first_moves :
      made n p.producer ≡ n
      → is_absent p.consumer₁ ≡ false
      → is_finished p.consumer₁ ≡ false
      → CanMove n p
  unfolding step consumer1
  first_moves all live running =
      elim (relay_lem n f (made n p.producer) p.queue₁ p.queue₂ p.consumer₂ p.consumer₁ r.stage₁) [
        | inr (r', went, a) ↦ (first, _, ap (with_relay₁ p) went)
        | inl stop ↦
            elim (relay_stops n f p.queue₁ p.queue₂ p.consumer₂ p.consumer₁
              (subst (λ m. Stage n f m (relay₁_of p)) all r.stage₁) live stop) [
                | inl over ↦ absurd (not_both over running)
                | inr (join, unfinished) ↦
                    second_moves (ap (sent n) join) (sym r.stage₁.creates ∙ ap is_idle join)
                      unfinished
              ]
      ]

  pub moves : is_done p.producer ≡ false → CanMove n p
  unfolding step parallel_sum
  moves running = elim (call_lem n p.queue₁ p.consumer₁ p.sum p.producer r.front) [
    | inr (c', went, a) ↦ (main, _, ap (with_caller p) went)
    | inl stop ↦ elim (call_stops n p.queue₁ p.consumer₁ p.sum p.producer stop) [
      | inl over ↦ absurd (not_both over running)
      | inr (all, live, unfinished) ↦ first_moves all (sym r.front.created ∙ live) unfinished
    ]
  ]
