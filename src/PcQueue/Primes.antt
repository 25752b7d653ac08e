-- ===== src/PcQueue/Primes.antt =====
-- What the loop of `is_prime` in test/pcqueue.cpp finds.
use Prim.Native.Nat.{◌*◌, ◌%◌, ◌/◌}
use native.Mathlib.Nat.{
  mul_comm, div-add-mod, mul-mod_left, mul-le-mul, mul-le-mul_left, le_of_mul-le-mul_left,
  mod-eq_of_lt,
}
use icsa_dswp.Prelude.{
  ℕ, zero, suc, ◌+◌, ◌<◌, ◌≤◌, ◌≡◌, ◌≢◌, ◌⊎◌, ◌↔◌, sym, ap, ◌∙◌, subst, true, false, inl, inr,
  arith, ◌==◌, ==_iff, ltb, Bool-cases, not_both,
}
use icsa_dswp.PcQueue.{square, exceeds, trial, is_prime}

-- the numbers that are below the square of the greatest `int` whose square is one
abbrev pub IsSmall : ℕ → Type 0
IsSmall n = n < 46340 * 46340

-- Up to that `int` squares do not overflow.
exceeds_lem : (n i : ℕ) → i ≤ 46340 → exceeds n i ≡ ltb n (i * i)
unfolding exceeds
exceeds_lem n i low =
    let bound : i * i ≤ 46340 * 46340 = mul-le-mul low low in
    let fits : i * i < 4294967296 = omega (arith, bound) in
    let same : square i ≡ i * i = mod-eq_of_lt fits in ground (arith, same, bound)

-- A round that is not the last leaves the counter in these bounds.
next_low : (n i : ℕ) → IsSmall n → ltb n (i * i) ≡ false → suc i ≤ 46340
next_low n i small inside = elim (Bool-cases (ltb i 46340)) [
  | inl less ↦ ground (arith, less)
  | inr more ↦
      let high : 46340 ≤ i = ground (arith, more) in
      let bound : 46340 * 46340 ≤ i * i = mul-le-mul high high in
      absurd (ground (arith, bound, small, inside))
]

-- `d` divides `n` and is not above its square root.
abbrev Divides : ℕ → ℕ → Type 0
Divides d n = (n % d ≡ 0) × (d * d ≤ n)

trial_past : (fuel n i : ℕ) → i ≤ 46340 → ltb n (i * i) ≡ true → trial (suc fuel) n i ≡ true
unfolding trial
trial_past fuel n i low h = rw (exceeds_lem n i low ∙ h, trial)

trial_hit :
    (fuel n i : ℕ)
    → i ≤ 46340
    → ltb n (i * i) ≡ false
    → n % i == 0 ≡ true
    → trial (suc fuel) n i ≡ false
unfolding trial
trial_hit fuel n i low h k = rw (exceeds_lem n i low ∙ h, k, trial)

trial_miss :
    (fuel n i : ℕ)
    → i ≤ 46340
    → ltb n (i * i) ≡ false
    → n % i == 0 ≡ false
    → trial (suc fuel) n i ≡ trial fuel n (suc i)
unfolding trial
trial_miss fuel n i low h k = rw (exceeds_lem n i low ∙ h, k, trial)

trial-true :
    (fuel n i d : ℕ)
    → IsSmall n
    → i ≤ 46340
    → trial fuel n i ≡ true
    → i ≤ d
    → d < i + fuel
    → ¬ Divides d n
trial-true zero n i d small low t l u h = omega (arith, l, u)
trial-true (suc fuel) n i d small low t l u h = elim (Bool-cases (ltb n (i * i))) [
  | inl past ↦
      let above : i * i ≤ d * d = mul-le-mul l l in absurd (ground (arith, past, above, h.1))
  | inr inside ↦ elim (Bool-cases (n % i == 0)) [
    | inl hit ↦ absurd (not_both t (trial_hit fuel n i low inside hit))
    | inr miss ↦
        let other : i ≢ d =
          λ e. not_both (subst (λ j. n % j == 0 ≡ true) (sym e) ((==_iff (n % d) 0).1 h.0)) miss in
        trial-true fuel n (suc i) d small (next_low n i small inside)
          (sym (trial_miss fuel n i low inside miss) ∙ t) (omega (arith, l, other))
          (omega (arith, u)) h
  ]
]

trial-false :
    (fuel n i : ℕ)
    → IsSmall n
    → i ≤ 46340
    → trial fuel n i ≡ false
    → (d : ℕ) × (i ≤ d) × Divides d n
unfolding trial
trial-false zero n i small low t = cc
trial-false (suc fuel) n i small low t = elim (Bool-cases (ltb n (i * i))) [
  | inl past ↦ absurd (not_both (trial_past fuel n i low past) t)
  | inr inside ↦ elim (Bool-cases (n % i == 0)) [
    | inl hit ↦ (i, omega arith, ((==_iff (n % i) 0).0 hit, ground (arith, inside)))
    | inr miss ↦
        let (d, l, h) =
          trial-false fuel n (suc i) small (next_low n i small inside)
            (sym (trial_miss fuel n i low inside miss) ∙ t) in
        (d, omega (arith, l), h)
  ]
]

-- The number is a product of two numbers above one.
abbrev pub IsProduct : ℕ → Type 0
IsProduct n = (d : ℕ) × (e : ℕ) × (2 ≤ d) × (2 ≤ e) × (d * e ≡ n)

lower_factor : (n d e : ℕ) → 2 ≤ d → d ≤ e → d * e ≡ n → (2 ≤ d) × (d < 2 + n) × Divides d n
lower_factor n d e two l p =
    let square : d * d ≤ d * e = mul-le-mul_left d l in
    let single : d * 1 ≤ d * d = mul-le-mul_left d (omega (arith, two)) in
    let rest : n % d ≡ 0 = ap (λ m. m % d) (sym p ∙ mul_comm d e) ∙ mul-mod_left e d in
    (two, omega (arith, square, single, p), (rest, omega (arith, square, p)))

either : (d e : ℕ) → (d ≤ e) ⊎ (e ≤ d)
either d e = elim (Bool-cases (ltb e d)) [
  | inl less ↦ inr (ground (arith, less))
  | inr more ↦ inl (ground (arith, more))
]

-- Below 46340 * 46340, where no `i * i` overflows, `is_prime` returns false exactly for a product
-- of two numbers above one, so that it returns true for 0 and 1 and the prime numbers.
pub is_prime_lem : (n : ℕ) → IsSmall n → (is_prime n ≡ false) ↔ IsProduct n
unfolding is_prime
is_prime_lem n small = (
  λ h.
      let (d, two, divides) = trial-false n n 2 small (omega arith) h in
      let whole : d * (n / d) ≡ n = omega (arith, div-add-mod n d, divides.0) in
      let above : d ≤ n / d =
        le_of_mul-le-mul_left {k = d} (subst (λ m. d * d ≤ m) (sym whole) divides.1)
          (omega (arith, two)) in
      (d, n / d, two, omega (arith, two, above), whole),
  λ (d, e, two, two', p). elim (Bool-cases (is_prime n)) [
    | inr composite ↦ composite
    | inl prime ↦ elim (either d e) [
      | inl l ↦
          let (t, u, h) = lower_factor n d e two l p in
          absurd (trial-true n n 2 d small (omega arith) prime t u h)
      | inr l ↦
          let (t, u, h) = lower_factor n e d two' l (mul_comm e d ∙ p) in
          absurd (trial-true n n 2 e small (omega arith) prime t u h)
    ]
  ],
)
