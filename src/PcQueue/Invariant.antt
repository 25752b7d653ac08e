-- ===== src/PcQueue/Invariant.antt =====
-- The steps of the threads of test/pcqueue.cpp on the whole state.
use icsa_dswp.Prelude.{ℕ, sym, ap, ◌∙◌, subst, inl, inr, arith, not_both}
use icsa_dswp.PcQueue.{
  f, sequential_sum, Producer, creating, producing, waiting, returned, Thread, main, first, second,
  third, Pipeline,
}
use icsa_dswp.PcQueue.Threads.{
  with_caller, with_relay₁, with_relay₂, with_adder, step, parallel_sum, consumer1, consumer2,
  consumer3,
}
use icsa_dswp.PcQueue.Places.{sent}
use icsa_dswp.PcQueue.Links.{Link}
use icsa_dswp.PcQueue.Relays.{relay_lem}
use icsa_dswp.PcQueue.Ends.{made, Returns, call_lem}
use icsa_dswp.PcQueue.Sums.{third_value, add_up_lem}
use icsa_dswp.PcQueue.Running.{
  relay₁_of, relay₂_of, IsResult, IsRunning, Keeps, restage, finished_sent,
}

module _ (n : ℕ) (p : Pipeline) (r : IsRunning n p) where
  first_lem : Keeps n p (step n first p)
  unfolding step consumer1
  first_lem =
      elim (relay_lem n f (made n p.producer) p.queue₁ p.queue₂ p.consumer₂ p.consumer₁ r.stage₁) [
        | inl stop ↦ inl (ap (with_relay₁ p) stop)
        | inr (r', went, a) ↦ inr (
          record p {
            consumer₁ = r'.self;
            queue₁ = r'.source;
            queue₂ = r'.sink;
            consumer₂ = r'.next;
          },
          ap (with_relay₁ p) went,
          record {
            front = record {
              link = a.stage.source;
              within = r.front.within;
              created = r.front.created ∙ sym a.absent_self;
            };
            stage₁ = a.stage;
            stage₂ =
                restage n (λ i. f (f i)) (sent n p.consumer₁) (sent n r'.self) r'.sink r'.next
                  (relay₂_of p) r.stage₂ a.stage.sink a.sent_next a.idle_next a.finished_next;
            back = record {
              link =
                  subst (λ m. Link n third_value m p.queue₃ p.consumer₃) (sym a.sent_next)
                    r.back.link;
              summed = r.back.summed;
              alone = r.back.alone;
            };
            result = r.result;
          },
          omega (arith, a.fewer),
          λ h. h,
        )
      ]

  second_lem : Keeps n p (step n second p)
  unfolding step consumer2
  second_lem =
      elim (relay_lem n (λ i. f (f i)) (sent n p.consumer₁) p.queue₂ p.queue₃ p.consumer₃
        p.consumer₂ r.stage₂) [
          | inl stop ↦ inl (ap (with_relay₂ p) stop)
          | inr (r', went, a) ↦ inr (
            record p {
              consumer₂ = r'.self;
              queue₂ = r'.source;
              queue₃ = r'.sink;
              consumer₃ = r'.next;
            },
            ap (with_relay₂ p) went,
            record {
              front = r.front;
              stage₁ = record {
                source = r.stage₁.source;
                sink = a.stage.source;
                creates = r.stage₁.creates ∙ sym a.absent_self;
                joins = λ over. absurd (not_both (r.stage₁.joins over) a.ran);
              };
              stage₂ = a.stage;
              back = record {
                link = a.stage.sink;
                summed = λ busy.
                    r.back.summed (sym a.idle_next ∙ busy) ∙ ap sequential_sum (sym a.sent_next);
                alone = a.joining_next ∙ r.back.alone;
              };
              result = r.result;
            },
            omega (arith, a.fewer),
            λ h. h,
          )
        ]

  third_lem : Keeps n p (step n third p)
  unfolding step consumer3
  third_lem = elim (add_up_lem n (sent n p.consumer₂) p.queue₃ p.sum p.consumer₃ r.back) [
    | inl stop ↦ inl (ap (with_adder p) stop)
    | inr (a', went, a) ↦ inr (
      record p { consumer₃ = a'.self; queue₃ = a'.source; sum = a'.sum },
      ap (with_adder p) went,
      record {
        front = r.front;
        stage₁ = r.stage₁;
        stage₂ = record {
          source = r.stage₂.source;
          sink = a.back.link;
          creates = r.stage₂.creates ∙ sym a.absent_self;
          joins = λ over. absurd (not_both (r.stage₂.joins over) a.ran);
        };
        back = a.back;
        result = r.result;
      },
      omega (arith, a.fewer),
      λ h. h,
    )
  ]

  -- What the caller returns is the sum of the sequential program.
  result_lem : (c : Producer) → Returns p.sum p.consumer₁ c → IsResult n c
  result_lem creating h = tt
  result_lem (producing i) h = tt
  result_lem waiting h = tt
  result_lem (returned result) h =
      let (all, busy) = finished_sent n p.consumer₃ (r.stage₂.joins (r.stage₁.joins h.1)) in
      h.0 ∙ r.back.summed busy ∙ ap sequential_sum all

  main_lem : Keeps n p (step n main p)
  unfolding step parallel_sum
  main_lem = elim (call_lem n p.queue₁ p.consumer₁ p.sum p.producer r.front) [
    | inl stop ↦ inl (ap (with_caller p) stop)
    | inr (c', went, a) ↦ inr (
      record p { producer = c'.self; queue₁ = c'.sink; consumer₁ = c'.next },
      ap (with_caller p) went,
      record {
        front = a.front;
        stage₁ =
            restage n f (made n p.producer) (made n c'.self) c'.sink c'.next (relay₁_of p) r.stage₁
              a.front.link a.sent_next a.idle_next a.finished_next;
        stage₂ = record {
          source =
              subst (λ m. Link n (λ i. f (f i)) m p.queue₂ p.consumer₂) (sym a.sent_next)
                r.stage₂.source;
          sink = r.stage₂.sink;
          creates = r.stage₂.creates;
          joins = r.stage₂.joins;
        };
        back = r.back;
        result = result_lem c'.self a.returns;
      },
      omega (arith, a.fewer),
      λ h. absurd (not_both h a.unfinished),
    )
  ]

  -- A step of any thread keeps what holds and leaves fewer steps, or the thread cannot move.
  pub step_lem : (t : Thread) → Keeps n p (step n t p)
  step_lem main = main_lem
  step_lem first = first_lem
  step_lem second = second_lem
  step_lem third = third_lem
