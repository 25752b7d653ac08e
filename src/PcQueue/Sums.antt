-- ===== src/PcQueue/Sums.antt =====
-- What a step of `consumer3` in test/pcqueue.cpp keeps.
use icsa_dswp.Prelude.{
  ℕ, zero, suc, ◌+◌, ◌<◌, ◌≡◌, ◌⊎◌, refl, sym, ap, ◌∙◌, subst, true, false, inl, inr, arith, ltb,
  Bool-cases, not_both,
}
use icsa_dswp.PcQueue.{
  f, sequential_sum, add_rounds, PcQueue, Turn, blocked, moved, Consumer, absent, starting, at_test,
  in_wait, holding, joining, finished, begin_consume, end_consume,
}
use icsa_dswp.PcQueue.Threads.{Adder, add_up, adding, is_finished}
use icsa_dswp.PcQueue.Places.{sent, weight, is_absent, is_idle, is_joining, idle_absent, apart}
use icsa_dswp.PcQueue.Links.{Link, Takes, begin_consume-Link, end_consume-Link, go-Link, wakes}

add_rounds-suc :
    (k i sum : ℕ) → add_rounds (suc k) i sum ≡ add_rounds k i sum + f (f (f (f (i + k))))
unfolding add_rounds
add_rounds-suc zero i sum = ap (λ j. sum + f (f (f (f j)))) (omega arith)
add_rounds-suc (suc k) i sum =
    add_rounds-suc k (suc i) (sum + f (f (f (f i))))
    ∙ ap (λ j. add_rounds k (suc i) (sum + f (f (f (f i)))) + f (f (f (f j)))) (omega arith)

sequential_sum-suc : (k : ℕ) → sequential_sum (suc k) ≡ sequential_sum k + f (f (f (f k)))
unfolding sequential_sum
sequential_sum-suc k =
    add_rounds-suc k 0 0 ∙ ap (λ j. add_rounds k 0 0 + f (f (f (f j)))) (omega arith)

empty_sum : 0 ≡ sequential_sum 0
unfolding sequential_sum add_rounds
empty_sum = refl

-- the value that the last consumer takes in a round
abbrev pub third_value : ℕ → ℕ
third_value i = f (f (f i))

-- The sum so far is that of the sequential program after the same rounds.
pub record Back (n made : ℕ) (a : Adder) : Type 0 where
  pub link : Link n third_value made a.source a.self
  pub summed : is_idle a.self ≡ false → a.sum ≡ sequential_sum (sent n a.self)
  pub alone : is_joining a.self ≡ false

pub record AdvancesBack (n made : ℕ) (a a' : Adder) : Type 0 where
  pub back : Back n made a'
  pub ran : is_finished a.self ≡ false
  pub absent_self : is_absent a'.self ≡ is_absent a.self
  pub fewer : weight n a'.self < weight n a.self

abbrev adder : Consumer → PcQueue → ℕ → Adder
adder self source sum = record { self = self; source = source; sum = sum }

abbrev Adds : (n made : ℕ) → Adder → Turn Adder → Type 0
Adds n made a t = (t ≡ blocked) ⊎ ((a' : Adder) × (t ≡ moved a') × AdvancesBack n made a a')

module _ (n made : ℕ) (source : PcQueue) (sum : ℕ) where
  take_lem :
      (c : Consumer) (t : Turn (Consumer × PcQueue))
      → is_idle c ≡ false
      → is_finished c ≡ false
      → Back n made (adder c source sum)
      → Takes n third_value made c t
      → Adds n made (adder c source sum) (adding sum t)
  take_lem c t busy running b (c', q, took, l, goes) =
      subst (λ u. Adds n made (adder c source sum) (adding sum u)) (sym took)
        (inr (
          adder c' q sum,
          refl,
          record {
            back = record {
              link = l;
              summed = λ h. b.summed busy ∙ ap sequential_sum (sym goes.sent_same);
              alone = goes.looping;
            };
            ran = running;
            absent_self = idle_absent c' goes.idle ∙ sym (idle_absent c busy);
            fewer = goes.fewer;
          },
        ))

  pub add_up_lem :
      (c : Consumer)
      → Back n made (adder c source sum)
      → Adds n made (adder c source sum) (add_up n c source sum)
  unfolding add_up end_consume
  add_up_lem absent b = inl refl
  add_up_lem starting b = inr (
    adder (at_test 0) source 0,
    refl,
    record {
      back = record {
        link =
            go-Link n third_value made source starting (at_test 0) refl (omega arith) refl refl
              b.link;
        summed = λ h. empty_sum;
        alone = refl;
      };
      ran = refl;
      absent_self = refl;
      fewer = omega arith;
    },
  )
  add_up_lem (at_test i) b = elim (Bool-cases (ltb i n)) [
    | inl more ↦ rw more (
        take_lem (at_test i) (begin_consume i source) refl refl b
          (begin_consume-Link n third_value made i source b.link (ground (arith, more))))
    | inr past ↦
        let last : i ≡ n = ground (arith, past, b.link.sound) in
        inr (
          adder finished source sum,
          rw past,
          record {
            back = record {
              link =
                  go-Link n third_value made source (at_test i) finished (sym last) tt refl refl
                    b.link;
              summed = λ h. b.summed refl ∙ ap sequential_sum last;
              alone = refl;
            };
            ran = refl;
            absent_self = refl;
            fewer = omega arith;
          },
        )
  ]
  add_up_lem (in_wait i) b = elim (Bool-cases source.asleep) [
    | inl sleeping ↦ inl (rw sleeping)
    | inr up ↦
        take_lem (in_wait i) (end_consume i source) refl refl b
          (end_consume-Link n third_value made i source b.link up)
  ]
  add_up_lem (holding i element) b = inr (
    adder (at_test (suc i)) source (sum + f element),
    refl,
    record {
      back = record {
        link =
            go-Link n third_value made source (holding i element) (at_test (suc i)) refl
              b.link.sound.0 refl refl b.link;
        summed = λ h.
            ap (λ s. s + f element) (b.summed refl)
            ∙ ap (λ e. sequential_sum i + f e) b.link.sound.1
            ∙ sym (sequential_sum-suc i);
        alone = refl;
      };
      ran = refl;
      absent_self = refl;
      fewer = omega (arith, b.link.sound.0);
    },
  )
  add_up_lem joining b = inl refl
  add_up_lem finished b = inl refl

-- Once everything was sent to it, the last consumer only stops when it has returned.
pub add_up_stops :
    (n : ℕ) (source : PcQueue) (sum : ℕ) (c : Consumer)
    → Back n n (adder c source sum)
    → is_absent c ≡ false
    → add_up n c source sum ≡ blocked
    → is_finished c ≡ true
unfolding add_up
add_up_stops n source sum absent b live stop = absurd (not_both refl live)
add_up_stops n source sum starting b live stop = cc
add_up_stops n source sum (at_test i) b live stop = elim (Bool-cases (ltb i n)) [
  | inr past ↦ absurd (apart {a = adder finished source sum} (rw past) stop)
  | inl more ↦
      let (c, q, took, l, goes) =
        begin_consume-Link n third_value n i source b.link (ground (arith, more)) in
      absurd (apart {a = adder c q sum} (rw (more, took)) stop)
]
add_up_stops n source sum (in_wait i) b live stop =
    let (c, q, took, l, goes) =
      end_consume-Link n third_value n i source b.link (wakes n third_value i source b.link) in
    absurd (apart {a = adder c q sum} (rw took) stop)
add_up_stops n source sum (holding i element) b live stop = cc
add_up_stops n source sum joining b live stop = absurd (not_both refl b.alone)
add_up_stops n source sum finished b live stop = refl
