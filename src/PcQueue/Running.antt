-- ===== src/PcQueue/Running.antt =====
-- The state of the pipeline in test/pcqueue.cpp while it runs.
use icsa_dswp.Prelude.{ℕ, ◌+◌, ◌<◌, ◌≡◌, ◌⊎◌, refl, sym, ◌∙◌, subst, true, false, not_both}
use icsa_dswp.PcQueue.{
  f, sequential_sum, PcQueue, Turn, blocked, moved, Consumer, absent, starting, at_test, in_wait,
  holding, joining, finished, Producer, returned, Pipeline,
}
use icsa_dswp.PcQueue.Threads.{Relay, Caller, Adder, is_finished, start}
use icsa_dswp.PcQueue.Places.{sent, weight, is_idle}
use icsa_dswp.PcQueue.Links.{Link, new-Link}
use icsa_dswp.PcQueue.Relays.{Stage}
use icsa_dswp.PcQueue.Ends.{made, load, is_done, Front}
use icsa_dswp.PcQueue.Sums.{third_value, Back}

abbrev pub caller_of : Pipeline → Caller
caller_of p = record { self = p.producer; sink = p.queue₁; next = p.consumer₁ }

abbrev pub relay₁_of : Pipeline → Relay
relay₁_of p = record { self = p.consumer₁; source = p.queue₁; sink = p.queue₂; next = p.consumer₂ }

abbrev pub relay₂_of : Pipeline → Relay
relay₂_of p = record { self = p.consumer₂; source = p.queue₂; sink = p.queue₃; next = p.consumer₃ }

abbrev pub adder_of : Pipeline → Adder
adder_of p = record { self = p.consumer₃; source = p.queue₃; sum = p.sum }

-- What was returned is the sum of the sequential program.
abbrev pub IsResult : ℕ → Producer → Type 0
IsResult n (returned r) = r ≡ sequential_sum n
IsResult n _ = Unit

pub record IsRunning (n : ℕ) (p : Pipeline) : Type 0 where
  pub front : Front n (caller_of p)
  pub stage₁ : Stage n f (made n p.producer) (relay₁_of p)
  pub stage₂ : Stage n (λ i. f (f i)) (sent n p.consumer₁) (relay₂_of p)
  pub back : Back n (sent n p.consumer₂) (adder_of p)
  pub result : IsResult n p.producer

-- A bound on the steps that all threads have left.
abbrev pub total : ℕ → Pipeline → ℕ
total n p = load n p.producer + weight n p.consumer₁ + weight n p.consumer₂ + weight n p.consumer₃

abbrev pub Keeps : ℕ → Pipeline → Turn Pipeline → Type 0
Keeps n p t =
    (t ≡ blocked)
    ⊎ ((p' : Pipeline) × (t ≡ moved p')
        × IsRunning n p'
        × (total n p' < total n p)
        × (is_done p.producer ≡ true → is_done p'.producer ≡ true))

-- A stage whose predecessor has changed it and the queue between them.
pub restage :
    (n : ℕ) (g : ℕ → ℕ) (m m' : ℕ) (source' : PcQueue) (self' : Consumer) (r : Relay)
    → Stage n g m r
    → Link n g m' source' self'
    → sent n self' ≡ sent n r.self
    → is_idle self' ≡ is_idle r.self
    → is_finished self' ≡ is_finished r.self
    → Stage n g m' (record r { self = self'; source = source' })
restage n g m m' source' self' r s l e i h = record {
  source = l;
  sink = subst (λ k. Link n (λ j. f (g j)) k r.sink r.next) (sym e) s.sink;
  creates = i ∙ s.creates;
  joins = λ over. s.joins (sym h ∙ over);
}

pub finished_sent :
    (n : ℕ) (c : Consumer) → is_finished c ≡ true → (sent n c ≡ n) × (is_idle c ≡ false)
finished_sent n absent h = cc
finished_sent n starting h = cc
finished_sent n (at_test i) h = cc
finished_sent n (in_wait i) h = cc
finished_sent n (holding i element) h = cc
finished_sent n joining h = cc
finished_sent n finished h = (refl, refl)

pub start-IsRunning : (n sum : ℕ) → IsRunning n (start sum)
start-IsRunning n sum = record {
  front = record { link = new-Link n f absent refl tt refl; within = tt; created = refl };
  stage₁ = record {
    source = new-Link n f absent refl tt refl;
    sink = new-Link n (λ i. f (f i)) absent refl tt refl;
    creates = refl;
    joins = λ h. h;
  };
  stage₂ = record {
    source = new-Link n (λ i. f (f i)) absent refl tt refl;
    sink = new-Link n third_value absent refl tt refl;
    creates = refl;
    joins = λ h. h;
  };
  back = record {
    link = new-Link n third_value absent refl tt refl;
    summed = λ h. absurd (not_both refl h);
    alone = refl;
  };
  result = tt;
}
