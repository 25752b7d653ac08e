-- ===== src/Std/PtrSet.antt =====
-- `std::set<const T *>`: the addresses in ascending order, each once.
use Prim.Native.Nat.{compare, Ordering}
use icsa_dswp.Prelude.{
  ℕ, ◌<◌, ◌≡◌, refl, true, false, not, ◌&&◌, ◌||◌, List, [], ◌∷◌, arith, ◌==◌, contains,
}

abbrev pub PtrSet : Type 0
PtrSet = List ℕ

-- `s.insert(x)`
unfoldable pub insert : ℕ → PtrSet → PtrSet
insert x [] = x ∷ []
insert x (y ∷ s) =
    let rest = insert x s in
    elim (compare x y) [ Ordering.lt ↦ x ∷ y ∷ s | Ordering.eq ↦ y ∷ s | Ordering.gt ↦ y ∷ rest ]

-- `s.erase(x)`
unfoldable pub erase : ℕ → PtrSet → PtrSet
erase x [] = []
erase x (y ∷ s) = let rest = erase x s in elim (y == x) [ true ↦ rest | false ↦ y ∷ rest ]

-- Every element of the set is above the address.
abbrev pub Above : ℕ → PtrSet → Type 0
Above x [] = Unit
Above x (y ∷ s) = (x < y) × Above x s

abbrev pub IsAscending : PtrSet → Type 0
IsAscending [] = Unit
IsAscending (x ∷ s) = Above x s × IsAscending s

pub contains-insert :
    (x : ℕ) (s : PtrSet) (n : ℕ) → contains (insert x s) n ≡ (x == n || contains s n)
unfolding insert
contains-insert x [] n = refl
contains-insert x (y ∷ s) n = ground (arith, contains-insert x s n)

pub contains-erase :
    (x : ℕ) (s : PtrSet) (n : ℕ) → contains (erase x s) n ≡ (not (x == n) && contains s n)
unfolding erase
contains-erase x [] n = ground arith
contains-erase x (y ∷ s) n = ground (arith, contains-erase x s n)

Above-insert : (y x : ℕ) (s : PtrSet) → y < x → Above y s → Above y (insert x s)
unfolding insert
Above-insert y x [] h a = (h, tt)
Above-insert y x (z ∷ s) h a = ground (arith, Above-insert y x s)

Above-trans : (x y : ℕ) (s : PtrSet) → x < y → Above y s → Above x s
Above-trans x y [] h a = tt
Above-trans x y (z ∷ s) h a = (omega arith, Above-trans x y s h a.1)

pub insert-IsAscending : (x : ℕ) (s : PtrSet) → IsAscending s → IsAscending (insert x s)
unfolding insert
insert-IsAscending x [] h = (tt, tt)
insert-IsAscending x (y ∷ s) h =
    ground (arith, insert-IsAscending x s, Above-insert y x s, Above-trans x y s)

Above-erase : (y x : ℕ) (s : PtrSet) → Above y s → Above y (erase x s)
unfolding erase
Above-erase y x [] a = tt
Above-erase y x (z ∷ s) a = ground (arith, Above-erase y x s)

pub erase-IsAscending : (x : ℕ) (s : PtrSet) → IsAscending s → IsAscending (erase x s)
unfolding erase
erase-IsAscending x [] h = tt
erase-IsAscending x (y ∷ s) h = ground (arith, erase-IsAscending x s, Above-erase y x s)

insert_runs : insert 5 (insert 2 (insert 9 [])) ≡ 2 ∷ 5 ∷ 9 ∷ []
unfolding insert
insert_runs = refl
