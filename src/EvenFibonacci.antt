-- ===== src/EvenFibonacci.antt =====
-- test/even-fibonacci.cpp: the sum of the even Fibonacci numbers up to a bound, which is 4000000 in
-- the program. A `uint` has 32 bits.
pub mod Sum
use Prim.Native.Nat.{◌%◌, ◌^◌}
use icsa_dswp.Prelude.{
  ℕ, zero, suc, ◌+◌, Bool, true, false, Option, none, some, ◌==◌, ltb, if◌then◌else◌,
}

-- an addition of two `uint`
abbrev pub add : ℕ → ℕ → ℕ
add x y = (x + y) % 2 ^ 32

-- The loop of `main`, with the bound as an argument; it goes on as long as there is fuel.
unfoldable pub loop : (fuel limit a b c sum : ℕ) → Option ℕ
loop zero limit a b c sum = none
loop (suc fuel) limit a b c sum = elim (ltb limit c) [
  | true ↦ some sum
  | false ↦ loop fuel limit b c (add b c) (if c % 2 == 0 then add sum c else sum)
]

unfoldable pub even_sum : (limit : ℕ) → Option ℕ
unfolding loop
even_sum limit = loop (suc limit) limit 1 1 (add 1 1) 0
