-- ===== src/PcQueue/Stops.antt =====
-- Where `consumer1` and `consumer2` in test/pcqueue.cpp stop.
use icsa_dswp.Prelude.{ℕ, ◌≡◌, ◌⊎◌, refl, true, false, inl, inr, arith, ltb, Bool-cases, not_both}
use icsa_dswp.PcQueue.{
  PcQueue, blocked, Consumer, absent, starting, at_test, in_wait, holding, joining, finished,
}
use icsa_dswp.PcQueue.Threads.{relay, is_finished}
use icsa_dswp.PcQueue.Places.{is_absent, apart}
use icsa_dswp.PcQueue.Links.{begin_consume-Link, end_consume-Link, wakes}
use icsa_dswp.PcQueue.Relays.{Stage, at}

module _ (n : ℕ) (g : ℕ → ℕ) (source sink : PcQueue) (next : Consumer) where
  -- Once everything was sent to it, a stage only stops to join its successor.
  pub relay_stops :
      (c : Consumer)
      → Stage n g n (at c source sink next)
      → is_absent c ≡ false
      → relay n c source sink next ≡ blocked
      → (is_finished c ≡ true) ⊎ ((c ≡ joining) × (is_finished next ≡ false))
  unfolding relay
  relay_stops absent s live stop = absurd (not_both refl live)
  relay_stops starting s live stop = cc
  relay_stops (at_test i) s live stop = elim (Bool-cases (ltb i n)) [
    | inr past ↦ absurd (apart {a = at joining source sink next} (rw past) stop)
    | inl more ↦
        let (c, q, took, l, goes) =
          begin_consume-Link n g n i source s.source (ground (arith, more)) in
        absurd (apart {a = at c q sink next} (rw (more, took)) stop)
  ]
  relay_stops (in_wait i) s live stop =
      let (c, q, took, l, goes) =
        end_consume-Link n g n i source s.source (wakes n g i source s.source) in
      absurd (apart {a = at c q sink next} (rw took) stop)
  relay_stops (holding i element) s live stop = cc
  relay_stops joining s live stop = elim (Bool-cases (is_finished next)) [
    | inr unfinished ↦ inr (refl, unfinished)
    | inl over ↦ absurd (apart {a = at finished source sink next} (rw over) stop)
  ]
  relay_stops finished s live stop = inl refl
