-- ===== src/PcQueue/Relays.antt =====
-- What a step of `consumer1` and `consumer2` in test/pcqueue.cpp keeps.
use icsa_dswp.Prelude.{
  ℕ, suc, ◌+◌, ◌<◌, ◌≡◌, ◌⊎◌, refl, sym, ap, ◌∙◌, subst, true, false, inl, inr, arith, ltb,
  Bool-cases, not_both,
}
use icsa_dswp.PcQueue.{
  f, PcQueue, new_queue, produce, Turn, blocked, moved, Consumer, absent, starting, at_test,
  in_wait, holding, joining, finished, begin_consume, end_consume,
}
use icsa_dswp.PcQueue.Threads.{Relay, relay, taking, is_finished}
use icsa_dswp.PcQueue.Places.{
  sent, weight, is_absent, is_idle, is_joining, idle_absent, absent_case,
}
use icsa_dswp.PcQueue.Links.{
  Link, Takes, produce-Link, begin_consume-Link, end_consume-Link, new-Link, go-Link,
}

-- A consumer in the middle of the pipeline with both its queues and its successor.
pub record Stage (n : ℕ) (g : ℕ → ℕ) (made : ℕ) (r : Relay) : Type 0 where
  pub source : Link n g made r.source r.self
  pub sink : Link n (λ i. f (g i)) (sent n r.self) r.sink r.next
  pub creates : is_idle r.self ≡ is_absent r.next
  pub joins : is_finished r.self ≡ true → is_finished r.next ≡ true

-- What a step of it keeps, and that fewer steps are left.
pub record Advances (n : ℕ) (g : ℕ → ℕ) (made : ℕ) (r r' : Relay) : Type 0 where
  pub stage : Stage n g made r'
  pub sent_next : sent n r'.next ≡ sent n r.next
  pub idle_next : is_idle r'.next ≡ is_idle r.next
  pub finished_next : is_finished r'.next ≡ is_finished r.next
  pub joining_next : is_joining r'.next ≡ is_joining r.next
  pub ran : is_finished r.self ≡ false
  pub absent_self : is_absent r'.self ≡ is_absent r.self
  pub fewer : weight n r'.self + weight n r'.next < weight n r.self + weight n r.next

abbrev pub Relays : (n : ℕ) (g : ℕ → ℕ) (made : ℕ) (r : Relay) → Turn Relay → Type 0
Relays n g made r t = (t ≡ blocked) ⊎ ((r' : Relay) × (t ≡ moved r') × Advances n g made r r')

abbrev pub at : Consumer → PcQueue → PcQueue → Consumer → Relay
at self source sink next = record { self = self; source = source; sink = sink; next = next }

module _ (n : ℕ) (g : ℕ → ℕ) (made : ℕ) (source sink : PcQueue) (next : Consumer) where
  abbrev Steps : Consumer → Type 0
  Steps c =
      Stage n g made (at c source sink next)
      → Relays n g made (at c source sink next) (relay n c source sink next)

  start_lem : Steps starting
  unfolding relay
  start_lem s = inr (
    at (at_test 0) source new_queue starting,
    refl,
    record {
      stage = record {
        source = go-Link n g made source starting (at_test 0) refl (omega arith) refl refl s.source;
        sink = new-Link n (λ i. f (g i)) starting refl tt refl;
        creates = refl;
        joins = λ h. h;
      };
      sent_next = absent_case (λ c. sent n starting ≡ sent n c) next s.creates refl;
      idle_next = absent_case (λ c. is_idle starting ≡ is_idle c) next s.creates refl;
      finished_next = absent_case (λ c. is_finished starting ≡ is_finished c) next s.creates refl;
      joining_next = absent_case (λ c. is_joining starting ≡ is_joining c) next s.creates refl;
      ran = refl;
      absent_self = refl;
      fewer =
          absent_case
            (λ c. weight n (at_test 0) + weight n starting < weight n starting + weight n c) next
            s.creates (omega arith);
    },
  )

  take_lem :
      (c : Consumer) (t : Turn (Consumer × PcQueue))
      → is_idle c ≡ false
      → is_finished c ≡ false
      → Stage n g made (at c source sink next)
      → Takes n g made c t
      → Relays n g made (at c source sink next) (taking sink next t)
  take_lem c t busy running s (c', q, took, l, goes) =
      subst (λ u. Relays n g made (at c source sink next) (taking sink next u)) (sym took)
        (inr (
          at c' q sink next,
          refl,
          record {
            stage = record {
              source = l;
              sink = subst (λ m. Link n (λ i. f (g i)) m sink next) (sym goes.sent_same) s.sink;
              creates = goes.idle ∙ sym busy ∙ s.creates;
              joins = λ h. absurd (not_both h goes.running);
            };
            sent_next = refl;
            idle_next = refl;
            finished_next = refl;
            joining_next = refl;
            ran = running;
            absent_self = idle_absent c' goes.idle ∙ sym (idle_absent c busy);
            fewer = omega (arith, goes.fewer);
          },
        ))

  send_lem : (i element : ℕ) → Steps (holding i element)
  unfolding relay
  send_lem i element s = inr (
    at (at_test (suc i)) source (produce (f element) sink) next,
    refl,
    record {
      stage = record {
        source =
            go-Link n g made source (holding i element) (at_test (suc i)) refl s.source.sound.0 refl
              refl s.source;
        sink = produce-Link n (λ j. f (g j)) i (f element) sink next (ap f s.source.sound.1) s.sink;
        creates = s.creates;
        joins = λ h. absurd (not_both h refl);
      };
      sent_next = refl;
      idle_next = refl;
      finished_next = refl;
      joining_next = refl;
      ran = refl;
      absent_self = refl;
      fewer = omega (arith, s.source.sound.0);
    },
  )

  end_lem : (i : ℕ) → ltb i n ≡ false → Steps (at_test i)
  unfolding relay
  end_lem i past s =
      let last : i ≡ n = ground (arith, past, s.source.sound) in
      rw past (
        inr (
          at joining source sink next,
          refl,
          record {
            stage = record {
              source = go-Link n g made source (at_test i) joining (sym last) tt refl refl s.source;
              sink = subst (λ m. Link n (λ i. f (g i)) m sink next) last s.sink;
              creates = s.creates;
              joins = λ h. absurd (not_both h refl);
            };
            sent_next = refl;
            idle_next = refl;
            finished_next = refl;
            joining_next = refl;
            ran = refl;
            absent_self = refl;
            fewer = omega arith;
          },
        ))

  join_lem : Steps joining
  unfolding relay
  join_lem s = elim (Bool-cases (is_finished next)) [
    | inr live ↦ inl (rw live)
    | inl over ↦ inr (
      at finished source sink next,
      rw over,
      record {
        stage = record {
          source = go-Link n g made source joining finished refl tt refl refl s.source;
          sink = s.sink;
          creates = s.creates;
          joins = λ h. over;
        };
        sent_next = refl;
        idle_next = refl;
        finished_next = refl;
        joining_next = refl;
        ran = refl;
        absent_self = refl;
        fewer = omega arith;
      },
    )
  ]

  -- A step of a stage keeps it and never reads the front of an empty queue.
  pub relay_lem : (c : Consumer) → Steps c
  unfolding relay end_consume
  relay_lem absent s = inl refl
  relay_lem starting s = start_lem s
  relay_lem (at_test i) s = elim (Bool-cases (ltb i n)) [
    | inr past ↦ end_lem i past s
    | inl more ↦ rw more (
        take_lem (at_test i) (begin_consume i source) refl refl s
          (begin_consume-Link n g made i source s.source (ground (arith, more))))
  ]
  relay_lem (in_wait i) s = elim (Bool-cases source.asleep) [
    | inl sleeping ↦ inl (rw sleeping)
    | inr up ↦
        take_lem (in_wait i) (end_consume i source) refl refl s
          (end_consume-Link n g made i source s.source up)
  ]
  relay_lem (holding i element) s = send_lem i element s
  relay_lem joining s = join_lem s
  relay_lem finished s = inl refl
