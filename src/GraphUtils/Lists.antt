-- ===== src/GraphUtils/Lists.antt =====
-- Order and counting in lists of nodes.
use icsa_dswp.Prelude.{
  ℕ, suc, ◌≤◌, ◌≡◌, Bool, true, false, ◌⊎◌, inl, inr, List, [], ◌∷◌, ◌++◌, arith, if◌then◌else◌,
  length, contains, contains-append, IsUnique,
}
use icsa_dswp.Std.{Ptr}

-- Some occurrence of `z` stands at or before one of `y`.
abbrev pub Before : List Ptr → Ptr → Ptr → Type 0
Before [] z y = ⊥
Before (a ∷ l) z y = (z ≡ a) × (contains (a ∷ l) y ≡ true) ⊎ Before l z y

pub Before-append_left : (xs ys : List Ptr) (z y : Ptr) → Before xs z y → Before (xs ++ ys) z y
Before-append_left [] ys z y b = absurd b
Before-append_left (x ∷ xs) ys z y (inl (e, m)) = inl (e, ground (arith, contains-append xs ys y))
Before-append_left (x ∷ xs) ys z y (inr b) = inr (Before-append_left xs ys z y b)

pub Before-append_right : (xs ys : List Ptr) (z y : Ptr) → Before ys z y → Before (xs ++ ys) z y
Before-append_right [] ys z y b = b
Before-append_right (x ∷ xs) ys z y b = inr (Before-append_right xs ys z y b)

pub Before-append :
    (xs ys : List Ptr) (z y : Ptr)
    → contains xs z ≡ true
    → contains ys y ≡ true
    → Before (xs ++ ys) z y
Before-append [] ys z y h k = ground arith
Before-append (x ∷ xs) ys z y h k = ground (arith, contains-append xs ys y, Before-append xs ys z y)

-- the nodes of a list that a flag does not mark
abbrev pub unmarked : (Ptr → Bool) → List Ptr → ℕ
unmarked f [] = 0
unmarked f (n ∷ ns) = if f n then unmarked f ns else suc (unmarked f ns)

pub unmarked_le :
    (f f' : Ptr → Bool) (ns : List Ptr)
    → ((n : Ptr) → f n ≡ true → f' n ≡ true)
    → unmarked f' ns ≤ unmarked f ns
unmarked_le f f' [] h = omega arith
unmarked_le f f' (n ∷ ns) h = ground (arith, unmarked_le f f' ns h, h n)

-- Marking one more node of the list leaves fewer unmarked ones.
pub unmarked_lt :
    (f f' : Ptr → Bool) (ns : List Ptr) (u : Ptr)
    → ((n : Ptr) → f n ≡ true → f' n ≡ true)
    → contains ns u ≡ true
    → f u ≡ false
    → f' u ≡ true
    → suc (unmarked f' ns) ≤ unmarked f ns
unmarked_lt f f' [] u h m old new = ground arith
unmarked_lt f f' (n ∷ ns) u h m old new =
    ground (arith, unmarked_lt f f' ns u h, unmarked_le f f' ns h, h n)

pub unmarked-le-length : (f : Ptr → Bool) (ns : List Ptr) → unmarked f ns ≤ length ns
unmarked-le-length f [] = omega arith
unmarked-le-length f (n ∷ ns) = ground (arith, unmarked-le-length f ns)

pub IsUnique-append :
    (xs ys : List Ptr)
    → IsUnique xs
    → IsUnique ys
    → ((n : Ptr) → contains xs n ≡ true → contains ys n ≡ false)
    → IsUnique (xs ++ ys)
IsUnique-append [] ys ux uy h = uy
IsUnique-append (x ∷ xs) ys ux uy h = (
  ground (arith, contains-append xs ys x, h x),
  IsUnique-append xs ys ux.1 uy (λ n m. h n (ground arith)),
)

pub Before-contains : (l : List Ptr) (z y : Ptr) → Before l z y → contains l y ≡ true
Before-contains [] z y b = absurd b
Before-contains (a ∷ l) z y (inl (e, m)) = m
Before-contains (a ∷ l) z y (inr b) = ground (arith, Before-contains l z y b)

-- In a list without repetitions what stands before an element is in the part before it.
pub Before-split :
    (pre : List Ptr) (r : Ptr) (rest : List Ptr) (z : Ptr)
    → IsUnique (pre ++ r ∷ rest)
    → Before (pre ++ r ∷ rest) z r
    → (contains pre z ≡ true) ⊎ (z ≡ r)
Before-split [] r rest z u (inl (e, m)) = inr e
Before-split [] r rest z u (inr b) = ground (arith, Before-contains rest z r b)
Before-split (x ∷ pre) r rest z u (inl (e, m)) = inl (ground arith)
Before-split (x ∷ pre) r rest z u (inr b) = ground (arith, Before-split pre r rest z u.1 b)
