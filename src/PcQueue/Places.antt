-- ===== src/PcQueue/Places.antt =====
-- Where a consumer of the pipeline stands: what it has taken and sent, and what it has left to do.
use Prim.Native.Nat.{◌*◌}
use icsa_dswp.Prelude.{refl, ℕ, suc, ◌+◌, ◌-◌, ◌<◌, ◌≤◌, ◌≡◌, Bool, true, false}
use icsa_dswp.PcQueue.{
  Turn, blocked, moved, Consumer, absent, starting, at_test, in_wait, holding, joining, finished,
}
use icsa_dswp.PcQueue.Threads.{is_finished}

-- how many elements a consumer has taken
abbrev pub taken : ℕ → Consumer → ℕ
taken n absent = 0
taken n starting = 0
taken n (at_test i) = i
taken n (in_wait i) = i
taken n (holding i element) = suc i
taken n joining = n
taken n finished = n

-- how many of them it has dealt with
abbrev pub sent : ℕ → Consumer → ℕ
sent n absent = 0
sent n starting = 0
sent n (at_test i) = i
sent n (in_wait i) = i
sent n (holding i element) = i
sent n joining = n
sent n finished = n

abbrev pub is_waiting : Consumer → Bool
is_waiting (in_wait i) = true
is_waiting _ = false

-- The counter of a consumer is in its bounds, and it holds the value of its round.
abbrev pub IsSound : ℕ → (ℕ → ℕ) → Consumer → Type 0
IsSound n g (at_test i) = i ≤ n
IsSound n g (in_wait i) = i < n
IsSound n g (holding i element) = (i < n) × (element ≡ g i)
IsSound n g _ = Unit

abbrev pub is_absent : Consumer → Bool
is_absent absent = true
is_absent _ = false

-- The consumer has not created its successor.
abbrev pub is_idle : Consumer → Bool
is_idle absent = true
is_idle starting = true
is_idle _ = false

abbrev pub is_joining : Consumer → Bool
is_joining joining = true
is_joining _ = false

-- A bound on the steps that a consumer has left.
abbrev pub weight : ℕ → Consumer → ℕ
weight n absent = 3 * n + 5
weight n starting = 3 * n + 4
weight n (at_test i) = 3 * (n - i) + 3
weight n (in_wait i) = 3 * (n - i) + 2
weight n (holding i element) = 3 * (n - i) + 1
weight n joining = 1
weight n finished = 0

-- The consumer took its turn in its loop.
pub record Goes (n : ℕ) (c c' : Consumer) : Type 0 where
  pub sent_same : sent n c' ≡ sent n c
  pub idle : is_idle c' ≡ false
  pub looping : is_joining c' ≡ false
  pub running : is_finished c' ≡ false
  pub fewer : weight n c' < weight n c

pub idle_absent : (c : Consumer) → is_idle c ≡ false → is_absent c ≡ false
idle_absent absent h = cc
idle_absent starting h = refl
idle_absent (at_test i) h = refl
idle_absent (in_wait i) h = refl
idle_absent (holding i element) h = refl
idle_absent joining h = refl
idle_absent finished h = refl

pub absent_case {ℓ} : (P : Consumer → Type ℓ) (c : Consumer) → true ≡ is_absent c → P absent → P c
absent_case P absent h p = p
absent_case P starting h p = cc
absent_case P (at_test i) h p = cc
absent_case P (in_wait i) h p = cc
absent_case P (holding i element) h p = cc
absent_case P joining h p = cc
absent_case P finished h p = cc

pub apart {ℓ} : {A : Type ℓ} {t : Turn A} {a : A} → t ≡ moved a → t ≡ blocked → ⊥
apart {A} {t} {a} p q = cc
