-- ===== src/Std/Cursor.antt =====
-- Iterators of `std::map` and `std::set`: an iterator is the key that it stands at, and `none` is
-- the end. It keeps its place when other keys are inserted. To move past an end is undefined.
use icsa_dswp.Prelude.{
  ℕ, ◌<◌, ◌≡◌, refl, Bool, true, false, Option, none, some, inl, inr, List, [], ◌∷◌, arith, ◌==◌,
  ==_iff, if◌then◌else◌, Bool-cases, contains,
}
use icsa_dswp.Std.PtrSet.{Above, IsAscending}
use icsa_dswp.Outcome.{Outcome, ok, err, bad_dereference}

abbrev pub Cursor : Type 0
Cursor = Option ℕ

-- `begin()`
abbrev pub first : List ℕ → Cursor
first [] = none
first (k ∷ ks) = some k

-- `x == y`
abbrev pub equal : Cursor → Cursor → Bool
equal none none = true
equal none (some k) = false
equal (some j) none = false
equal (some j) (some k) = j == k

-- `++x`, for the keys in their order
unfoldable pub next : List ℕ → Cursor → Outcome Cursor
next [] x = err bad_dereference
next (k ∷ ks) x = let later = next ks x in if equal (some k) x then ok (first ks) else later

-- `--x`
unfoldable pub previous : List ℕ → Cursor → Outcome Cursor
previous [] x = err bad_dereference
previous (k ∷ ks) x = let later = previous ks x in if equal (first ks) x then ok (some k) else later

pub contains-Above : (j : ℕ) (ks : List ℕ) (k : ℕ) → Above j ks → contains ks k ≡ true → j < k
contains-Above j [] k a h = absurd (ground (arith, h))
contains-Above j (i ∷ ks) k a h = ground (arith, contains-Above j ks k, ==_iff i k)

next-contains : (ks : List ℕ) (x : Cursor) (y : ℕ) → next ks x ≡ ok (some y) → contains ks y ≡ true
unfolding next
next-contains [] x y h = absurd (ground (arith, h))
next-contains (k ∷ []) x y h = ground (arith, h, next-contains [] x y)
next-contains (k ∷ j ∷ ks) x y h = ground (arith, h, ==_iff j y, next-contains (j ∷ ks) x y)

-- Nothing leads to the first key.
next_first :
    (ks : List ℕ) (k : ℕ) (y : Cursor)
    → IsAscending ks
    → next ks (some k) ≡ ok y
    → equal (first ks) y ≡ false
unfolding next
next_first [] k y asc h = absurd (ground (arith, h))
next_first (j ∷ ks) k none asc h = refl
next_first (j ∷ []) k (some y) asc h = absurd (ground (arith, h))
next_first (j ∷ i ∷ ks) k (some y) asc h =
    ground
      (arith, h, asc, ==_iff j y, contains-Above j (i ∷ ks) y, next-contains (i ∷ ks) (some k) y)

equal_refl : (x : Cursor) → equal x x ≡ true
equal_refl none = refl
equal_refl (some k) = (==_iff k k).1 refl

-- A step forward from a key that is there can be taken back.
pub previous-next :
    (ks : List ℕ) (k : ℕ) (y : Cursor)
    → IsAscending ks
    → next ks (some k) ≡ ok y
    → previous ks y ≡ ok (some k)
unfolding next previous
previous-next [] k y asc h = absurd (ground (arith, h))
previous-next (j ∷ ks) k y asc h = elim (Bool-cases (j == k)) [
  | inl here ↦ ground (arith, h, here, ==_iff j k, equal_refl (first ks))
  | inr later ↦ ground (arith, h, later, previous-next ks k y, asc, next_first ks k y)
]

-- A step forward from any key that is there is defined.
pub next_runs :
    (ks : List ℕ) (k : ℕ) → contains ks k ≡ true → (y : Cursor) × (next ks (some k) ≡ ok y)
unfolding next
next_runs [] k h = absurd (ground (arith, h))
next_runs (j ∷ ks) k h = elim (Bool-cases (j == k)) [
  | inl here ↦ (first ks, ground (arith, here))
  | inr later ↦
      let (y, e) = next_runs ks k (ground (arith, h, later)) in (y, ground (arith, later, e))
]
