-- ===== src/PcQueue/Ends.antt =====
-- What a step of `parallel_sum` in test/pcqueue.cpp keeps.
use icsa_dswp.Prelude.{
  ℕ, suc, ◌+◌, ◌-◌, ◌<◌, ◌≤◌, ◌≡◌, ◌⊎◌, refl, subst, Bool, true, false, inl, inr, arith, ltb,
  Bool-cases,
}
use icsa_dswp.PcQueue.{
  f, PcQueue, new_queue, produce, blocked, moved, Consumer, starting, Producer, creating, producing,
  waiting, returned,
}
use icsa_dswp.PcQueue.Threads.{Caller, call, is_finished}
use icsa_dswp.PcQueue.Places.{sent, weight, is_absent, is_idle, absent_case, apart}
use icsa_dswp.PcQueue.Links.{Link, produce-Link, new-Link}

-- how many numbers the caller has sent
abbrev pub made : ℕ → Producer → ℕ
made n creating = 0
made n (producing i) = i
made n waiting = n
made n (returned r) = n

abbrev pub is_creating : Producer → Bool
is_creating creating = true
is_creating _ = false

abbrev pub is_done : Producer → Bool
is_done (returned r) = true
is_done _ = false

-- A bound on the steps that the caller has left.
abbrev pub load : ℕ → Producer → ℕ
load n creating = n + 3
load n (producing i) = n - i + 2
load n waiting = 1
load n (returned r) = 0

abbrev pub IsWithin : ℕ → Producer → Type 0
IsWithin n (producing i) = i ≤ n
IsWithin n _ = Unit

-- What the caller returns is the sum that the first consumer has left.
abbrev pub Returns : (sum : ℕ) (next : Consumer) → Producer → Type 0
Returns sum next (returned r) = (r ≡ sum) × (is_finished next ≡ true)
Returns sum next _ = Unit

pub record Front (n : ℕ) (c : Caller) : Type 0 where
  pub link : Link n f (made n c.self) c.sink c.next
  pub within : IsWithin n c.self
  pub created : is_creating c.self ≡ is_absent c.next

pub record AdvancesFront (n sum : ℕ) (c c' : Caller) : Type 0 where
  pub front : Front n c'
  pub sent_next : sent n c'.next ≡ sent n c.next
  pub idle_next : is_idle c'.next ≡ is_idle c.next
  pub finished_next : is_finished c'.next ≡ is_finished c.next
  pub unfinished : is_done c.self ≡ false
  pub returns : Returns sum c.next c'.self
  pub fewer : load n c'.self + weight n c'.next < load n c.self + weight n c.next

abbrev caller : Producer → PcQueue → Consumer → Caller
caller self sink next = record { self = self; sink = sink; next = next }

module _ (n : ℕ) (sink : PcQueue) (next : Consumer) (sum : ℕ) where
  abbrev Calls : Producer → Type 0
  Calls c =
      Front n (caller c sink next)
      → (call n c sink next sum ≡ blocked)
        ⊎ ((c' : Caller) × (call n c sink next sum ≡ moved c')
            × AdvancesFront n sum (caller c sink next) c')

  produce_lem : (i : ℕ) → Calls (producing i)
  unfolding call
  produce_lem i s = elim (Bool-cases (ltb i n)) [
    | inl more ↦ inr (
      caller (producing (suc i)) (produce (f i) sink) next,
      rw more,
      record {
        front = record {
          link = produce-Link n f i (f i) sink next refl s.link;
          within = ground (arith, more);
          created = s.created;
        };
        sent_next = refl;
        idle_next = refl;
        finished_next = refl;
        unfinished = refl;
        returns = tt;
        fewer = ground (arith, more);
      },
    )
    | inr past ↦ inr (
      caller waiting sink next,
      rw past,
      record {
        front = record {
          link = subst (λ m. Link n f m sink next) (ground (arith, past, s.within)) s.link;
          within = tt;
          created = s.created;
        };
        sent_next = refl;
        idle_next = refl;
        finished_next = refl;
        unfinished = refl;
        returns = tt;
        fewer = omega arith;
      },
    )
  ]

  pub call_lem : (c : Producer) → Calls c
  unfolding call
  call_lem creating s = inr (
    caller (producing 0) new_queue starting,
    refl,
    record {
      front = record {
        link = new-Link n f starting refl tt refl;
        within = omega arith;
        created = refl;
      };
      sent_next = absent_case (λ c. sent n starting ≡ sent n c) next s.created refl;
      idle_next = absent_case (λ c. is_idle starting ≡ is_idle c) next s.created refl;
      finished_next = absent_case (λ c. is_finished starting ≡ is_finished c) next s.created refl;
      unfinished = refl;
      returns = tt;
      fewer =
          absent_case (λ c. load n (producing 0) + weight n starting < load n creating + weight n c)
            next s.created (omega arith);
    },
  )
  call_lem (producing i) s = produce_lem i s
  call_lem waiting s = elim (Bool-cases (is_finished next)) [
    | inr live ↦ inl (rw live)
    | inl over ↦ inr (
      caller (returned sum) sink next,
      rw over,
      record {
        front = record { link = s.link; within = tt; created = s.created };
        sent_next = refl;
        idle_next = refl;
        finished_next = refl;
        unfinished = refl;
        returns = (refl, over);
        fewer = omega arith;
      },
    )
  ]
  call_lem (returned r) s = inl refl

  -- The caller stops to join its successor, or when it has returned.
  pub call_stops :
      (c : Producer)
      → call n c sink next sum ≡ blocked
      → (is_done c ≡ true) ⊎ ((made n c ≡ n) × (is_creating c ≡ false) × (is_finished next ≡ false))
  unfolding call
  call_stops creating stop = cc
  call_stops (producing i) stop = elim (Bool-cases (ltb i n)) [
    | inl more ↦
        absurd (apart {a = caller (producing (suc i)) (produce (f i) sink) next} (rw more) stop)
    | inr past ↦ absurd (apart {a = caller waiting sink next} (rw past) stop)
  ]
  call_stops waiting stop = elim (Bool-cases (is_finished next)) [
    | inr live ↦ inr (refl, refl, live)
    | inl over ↦ absurd (apart {a = caller (returned sum) sink next} (rw over) stop)
  ]
  call_stops (returned r) stop = inl refl
