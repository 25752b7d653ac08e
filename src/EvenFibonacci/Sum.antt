-- ===== src/EvenFibonacci/Sum.antt =====
-- The loop of test/even-fibonacci.cpp and the Fibonacci numbers.
use Prim.Native.Nat.{◌%◌, ◌^◌}
use icsa_dswp.Prelude.{
  ℕ, zero, suc, ◌+◌, ◌≤◌, ◌<◌, ◌≡◌, refl, sym, ap, ◌∙◌, subst, true, false, some, inl, inr, arith,
  ◌==◌, ltb, if◌then◌else◌, Bool-cases, if_ind, ==_iff,
}
use icsa_dswp.EvenFibonacci.{add, loop, even_sum}

-- 1, 1, 2, 3, 5 and so on
pub fibonacci : ℕ → ℕ
fibonacci zero = 1
fibonacci (suc zero) = 1
fibonacci (suc (suc k)) = fibonacci k + fibonacci (suc k)

-- the sum of the even ones among the terms from `fibonacci 2` on
pub sum_of_even : (terms : ℕ) → ℕ
sum_of_even zero = 0
sum_of_even (suc k) =
    if fibonacci (suc (suc k)) % 2 == 0
    then sum_of_even k + fibonacci (suc (suc k))
    else sum_of_even k

-- The sum is that of the terms up to the limit.
abbrev pub IsEvenSum : (limit sum : ℕ) → Type 0
IsEvenSum limit sum =
    (n : ℕ) × (sum ≡ sum_of_even n)
    × (limit < fibonacci (suc (suc n)))
    × ((k : ℕ) → k < n → fibonacci (suc (suc k)) ≤ limit)

loop_more :
    (fuel limit a b c sum : ℕ)
    → ltb limit c ≡ false
    → loop (suc fuel) limit a b c sum
      ≡ loop fuel limit b c (add b c) (if c % 2 == 0 then add sum c else sum)
unfolding loop
loop_more fuel limit a b c sum h = rw (h, loop)

loop_end :
    (fuel limit a b c sum : ℕ) → ltb limit c ≡ true → loop (suc fuel) limit a b c sum ≡ some sum
unfolding loop
loop_end fuel limit a b c sum h = rw (h, loop)

-- At the top of the loop after `n` rounds.
record Top (limit n a b c sum : ℕ) : Type 0 where
  first : a ≡ fibonacci n
  second : b ≡ fibonacci (suc n)
  third : c ≡ a + b
  summed : sum ≡ sum_of_even n
  small : sum ≤ b + c
  positive : 0 < b
  below : b ≤ c
  terms : (k : ℕ) → k < n → fibonacci (suc (suc k)) ≤ limit

add_small : (x y : ℕ) → x + y < 2 ^ 32 → add x y ≡ x + y
add_small x y h = omega (arith, h)

next :
    (limit n a b c sum : ℕ)
    → limit < 2 ^ 30
    → c ≤ limit
    → Top limit n a b c sum
    → Top limit (suc n) b c (add b c) (if c % 2 == 0 then add sum c else sum)
unfolding fibonacci sum_of_even
next limit n a b c sum bound inside t =
    let term : c ≡ fibonacci (suc (suc n)) =
      t.third ∙ ap (λ v. v + b) t.first ∙ ap (λ v. fibonacci n + v) t.second in
    let wide : add b c ≡ b + c = add_small b c (omega (arith, t.below, inside, bound)) in
    let plain : add sum c ≡ sum + c =
      add_small sum c (omega (arith, t.small, t.below, inside, bound)) in
    let terms = t.terms in
    record {
      first = t.second;
      second = term;
      third = wide;
      summed =
          ap (λ v. if c % 2 == 0 then v else sum) plain
          ∙ ap (λ v. if c % 2 == 0 then v + c else v) t.summed
          ∙ ap (λ v. if v % 2 == 0 then sum_of_even n + v else sum_of_even n) term;
      small =
          if_ind (λ v. v ≤ c + add b c) (c % 2 == 0) (omega (arith, plain, wide, t.small))
            (omega (arith, wide, t.small));
      positive = omega (arith, t.positive, t.below);
      below = omega (arith, wide);
      terms = λ k l. elim (Bool-cases (k == n)) [
        | inl last ↦
            subst (λ j. fibonacci (suc (suc j)) ≤ limit) (sym ((==_iff k n).0 last))
              (subst (λ v. v ≤ limit) term inside)
        | inr earlier ↦ t.terms k (ground (arith, l, earlier))
      ];
    }

-- The test of the loop fails.
stops :
    (fuel limit n a b c sum : ℕ)
    → limit < c
    → Top limit n a b c sum
    → (result : ℕ) × (loop (suc fuel) limit a b c sum ≡ some result) × IsEvenSum limit result
unfolding fibonacci
stops fuel limit n a b c sum over t = (
  sum,
  loop_end fuel limit a b c sum (ground (arith, over)),
  (n, t.summed, omega (arith, over, t.third, t.first, t.second), t.terms),
)

loop_lem :
    (fuel limit n a b c sum : ℕ)
    → limit < 2 ^ 30
    → limit < fuel + c
    → Top limit n a b c sum
    → (result : ℕ) × (loop (suc fuel) limit a b c sum ≡ some result) × IsEvenSum limit result
loop_lem zero limit n a b c sum bound enough t =
    stops zero limit n a b c sum (omega (arith, enough)) t
loop_lem (suc fuel) limit n a b c sum bound enough t = elim (Bool-cases (ltb limit c)) [
  | inl over ↦ stops (suc fuel) limit n a b c sum (ground (arith, over)) t
  | inr inside ↦
      let room : c ≤ limit = ground (arith, inside) in
      let t' = next limit n a b c sum bound room t in
      let (result, ran, done) =
        loop_lem fuel limit (suc n) b c (add b c) (if c % 2 == 0 then add sum c else sum) bound
          (omega (arith, enough, t'.third, t.positive)) t' in
      (result, loop_more (suc fuel) limit a b c sum inside ∙ ran, done)
]

-- For a limit below 2 ^ 30 the loop, which adds modulo 2 ^ 32, ends with the sum of the even ones
-- among the Fibonacci numbers 2, 3, 5 and so on up to the limit.
pub even_sum_lem :
    (limit : ℕ)
    → limit < 2 ^ 30
    → (result : ℕ) × (even_sum limit ≡ some result) × IsEvenSum limit result
unfolding even_sum fibonacci sum_of_even
even_sum_lem limit bound = loop_lem limit limit 0 1 1 (add 1 1) 0 bound (omega arith) (record {
  first = refl;
  second = refl;
  third = refl;
  summed = refl;
  small = omega arith;
  positive = omega arith;
  below = omega arith;
  terms = λ k l. absurd (omega (arith, l));
})
