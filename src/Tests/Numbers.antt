-- ===== src/Tests/Numbers.antt =====
-- test/even-fibonacci.cpp at its bound, and the theorem on it.
use icsa_dswp.Prelude.{ℕ, ◌≡◌, refl, some, arith}
use icsa_dswp.EvenFibonacci.{even_sum}
use icsa_dswp.EvenFibonacci.Sum.{IsEvenSum, even_sum_lem}

even_sum_4000000 : even_sum 4000000 ≡ some 4613732
unfolding even_sum
even_sum_4000000 = refl

even_sum_lem_example : (result : ℕ) × (even_sum 4000000 ≡ some result) × IsEvenSum 4000000 result
even_sum_lem_example = even_sum_lem 4000000 (omega arith)
