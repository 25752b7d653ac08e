-- ===== src/Std/PtrMap.antt =====
-- `std::map<const T *, V>`: the entries in ascending order of their keys, each key once.
use Prim.Native.Nat.{compare, Ordering}
use icsa_dswp.Prelude.{
  ℕ, ◌<◌, ◌≡◌, refl, Bool, true, false, Option, none, some, List, [], ◌∷◌, arith, ◌==◌,
  if◌then◌else◌, contains,
}
use icsa_dswp.Std.PtrSet
use icsa_dswp.Outcome.{Outcome, ok, err, out_of_range}

module _ {ℓ} where
  abbrev pub PtrMap : Type ℓ → Type ℓ
  PtrMap V = List (ℕ × V)

module _ {ℓ} {V : Type ℓ} where
  -- `m.find(k)`, with `m.end()` as `none`
  unfoldable pub find : PtrMap V → ℕ → Option V
  find [] k = none
  find ((j, v) ∷ m) k = if j == k then some v else find m k

  -- `m[k] = v`
  unfoldable pub assign : ℕ → V → PtrMap V → PtrMap V
  assign k v [] = (k, v) ∷ []
  assign k v ((j, w) ∷ m) =
      let rest = assign k v m in
      elim (compare k j) [
        | Ordering.lt ↦ (k, v) ∷ (j, w) ∷ m
        | Ordering.eq ↦ (k, v) ∷ m
        | Ordering.gt ↦ (j, w) ∷ rest
      ]

  -- `m.erase(k)`
  unfoldable pub erase : ℕ → PtrMap V → PtrMap V
  erase k [] = []
  erase k ((j, v) ∷ m) =
      let rest = erase k m in elim (j == k) [ true ↦ rest | false ↦ (j, v) ∷ rest ]

  -- the first components of the entries, in the order of iteration
  abbrev pub keys : PtrMap V → List ℕ
  keys [] = []
  keys ((k, v) ∷ m) = k ∷ keys m

  abbrev pub has_key : PtrMap V → ℕ → Bool
  has_key m k = elim (find m k) [ none ↦ false | some v ↦ true ]

  -- `m[k]` as a value: what is there, or the default that `operator[]` inserts
  abbrev pub get_or : PtrMap V → ℕ → V → V
  get_or m k d = elim (find m k) [ none ↦ d | some v ↦ v ]

  -- `m.at(k)`
  unfoldable pub at : PtrMap V → ℕ → Outcome V
  unfolding find
  at m k = elim (find m k) [ none ↦ err out_of_range | some v ↦ ok v ]

  -- the effect of mentioning `m[k]`: a missing key is inserted with the default value
  unfoldable pub touch : ℕ → V → PtrMap V → PtrMap V
  touch k d m = elim (find m k) [ none ↦ assign k d m | some v ↦ m ]

  pub find-assign :
      (k : ℕ) (v : V) (m : PtrMap V) (n : ℕ)
      → find (assign k v m) n ≡ (if k == n then some v else find m n)
  unfolding find assign
  find-assign k v [] n = refl
  find-assign k v ((j, w) ∷ m) n = ground (arith, find-assign k v m n)

  pub find-erase :
      (k : ℕ) (m : PtrMap V) (n : ℕ) → find (erase k m) n ≡ (if k == n then none else find m n)
  unfolding find erase
  find-erase k [] n = ground arith
  find-erase k ((j, w) ∷ m) n = ground (arith, find-erase k m n)

  pub find-touch :
      (k : ℕ) (d : V) (m : PtrMap V) (n : ℕ)
      → find (touch k d m) n ≡ (if k == n then some (get_or m k d) else find m n)
  unfolding touch
  find-touch k d m n = ground (arith, find-assign k d m n)

  -- Every key of the map is above the address.
  abbrev pub Above : ℕ → PtrMap V → Type 0
  Above k [] = Unit
  Above k ((j, v) ∷ m) = (k < j) × Above k m

  -- the order of the keys, which makes each of them unique
  abbrev pub IsAscending : PtrMap V → Type 0
  IsAscending [] = Unit
  IsAscending ((k, v) ∷ m) = Above k m × IsAscending m

  Above-assign : (k j : ℕ) (v : V) (m : PtrMap V) → k < j → Above k m → Above k (assign j v m)
  unfolding assign
  Above-assign k j v [] h a = (h, tt)
  Above-assign k j v ((i, w) ∷ m) h a = ground (arith, Above-assign k j v m)

  Above-trans : (k j : ℕ) (m : PtrMap V) → k < j → Above j m → Above k m
  Above-trans k j [] h a = tt
  Above-trans k j ((i, w) ∷ m) h a = (omega arith, Above-trans k j m h a.1)

  pub assign-IsAscending :
      (k : ℕ) (v : V) (m : PtrMap V) → IsAscending m → IsAscending (assign k v m)
  unfolding assign
  assign-IsAscending k v [] h = (tt, tt)
  assign-IsAscending k v ((j, w) ∷ m) h =
      ground (arith, assign-IsAscending k v m, Above-assign j k v m, Above-trans k j m)

  Above-erase : (k j : ℕ) (m : PtrMap V) → Above k m → Above k (erase j m)
  unfolding erase
  Above-erase k j [] a = tt
  Above-erase k j ((i, w) ∷ m) a = ground (arith, Above-erase k j m)

  pub erase-IsAscending : (k : ℕ) (m : PtrMap V) → IsAscending m → IsAscending (erase k m)
  unfolding erase
  erase-IsAscending k [] h = tt
  erase-IsAscending k ((j, w) ∷ m) h = ground (arith, erase-IsAscending k m, Above-erase j k m)

  pub touch-IsAscending : (k : ℕ) (d : V) (m : PtrMap V) → IsAscending m → IsAscending (touch k d m)
  unfolding touch
  touch-IsAscending k d m h = ground (arith, assign-IsAscending k d m)

  -- A key below all others is not found.
  pub find-Above : (k : ℕ) (m : PtrMap V) → Above k m → find m k ≡ none
  unfolding find
  find-Above k [] a = refl
  find-Above k ((j, v) ∷ m) a = ground (arith, find-Above k m)

  pub contains-keys : (m : PtrMap V) (k : ℕ) → contains (keys m) k ≡ has_key m k
  unfolding find
  contains-keys [] k = refl
  contains-keys ((j, v) ∷ m) k = ground (arith, contains-keys m k)

  pub at_lem : (m : PtrMap V) (k : ℕ) (d : V) → has_key m k ≡ true → at m k ≡ ok (get_or m k d)
  unfolding at
  at_lem m k d h = ground arith

  pub touch_there : (k : ℕ) (d : V) (m : PtrMap V) → has_key m k ≡ true → touch k d m ≡ m
  unfolding touch
  touch_there k d m h = ground arith

  Above-keys : (k : ℕ) (m : PtrMap V) → Above k m → PtrSet.Above k (keys m)
  Above-keys k [] a = tt
  Above-keys k ((j, v) ∷ m) a = (a.0, Above-keys k m a.1)

  pub IsAscending-keys : (m : PtrMap V) → IsAscending m → PtrSet.IsAscending (keys m)
  IsAscending-keys [] h = tt
  IsAscending-keys ((k, v) ∷ m) h = (Above-keys k m h.0, IsAscending-keys m h.1)
