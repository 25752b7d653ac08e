-- ===== src/Prelude.antt =====
-- The names that the other modules share: those of the libraries, Boolean tests on addresses and
-- numbers, and lists scanned by such tests.
pub use Prim.Native.Nat.{ℕ, zero, suc, ◌+◌, ◌-◌, ◌≤◌, ◌<◌}
pub use mathlib.Core.Path.{◌≡◌, refl, sym, ap, ◌∙◌, subst}
pub use mathlib.Core.Logic.{◌≢◌, ◌↔◌, ◌⊎◌, inl, inr}
pub use mathlib.Core.Bool.{Bool, true, false, not, ◌&&◌, ◌||◌}
pub use mathlib.Core.Option.{Option, none, some}
pub use mathlib.Core.List.{List, [], ◌∷◌, ◌++◌}
pub use native.Mathlib.Omega.{arith}
use Prim.Native.Nat.{compare, Ordering}

abbrev pub ltb : ℕ → ℕ → Bool
ltb a b = elim (compare a b) [ Ordering.lt ↦ true | _ ↦ false ]

infix 50 ◌==◌
abbrev pub ◌==◌ : ℕ → ℕ → Bool
a == b = elim (compare a b) [ Ordering.eq ↦ true | _ ↦ false ]

infix 1 if◌then◌else◌
abbrev pub if◌then◌else◌ {ℓ} : {A : Type ℓ} → Bool → A → A → A
if true then x else y = x
if false then x else y = y

pub ==_iff : (a b : ℕ) → ((a == b) ≡ true) ↔ (a ≡ b)
==_iff a b = ground arith

-- To split on a computed value and keep the equation.
pub Bool-cases : (b : Bool) → (b ≡ true) ⊎ (b ≡ false)
Bool-cases true = inl refl
Bool-cases false = inr refl

pub Option-cases {ℓ} : {A : Type ℓ} (o : Option A) → (o ≡ none) ⊎ ((a : A) × (o ≡ some a))
Option-cases none = inl refl
Option-cases (some a) = inr (a, refl)

-- Two tests with the same outcome `true` are the same test.
pub Bool-ext : (a b : Bool) → ((a ≡ true) ↔ (b ≡ true)) → a ≡ b
Bool-ext true b h = sym (h.0 refl)
Bool-ext false true h = h.1 refl
Bool-ext false false h = refl

abbrev pub length {ℓ} : {A : Type ℓ} → List A → ℕ
length [] = 0
length (x ∷ xs) = suc (length xs)

abbrev pub contains : List ℕ → ℕ → Bool
contains [] n = false
contains (x ∷ xs) n = x == n || contains xs n

pub contains-append :
    (xs ys : List ℕ) (n : ℕ) → contains (xs ++ ys) n ≡ (contains xs n || contains ys n)
contains-append [] ys n = refl
contains-append (x ∷ xs) ys n = ground (arith, contains-append xs ys n)

pub contains-append_cases :
    (xs ys : List ℕ) (n : ℕ)
    → contains (xs ++ ys) n ≡ true
    → (contains xs n ≡ true) ⊎ (contains ys n ≡ true)
contains-append_cases xs ys n h = ground (arith, contains-append xs ys n)

-- No element stands twice in the list.
abbrev pub IsUnique : List ℕ → Type 0
IsUnique [] = Unit
IsUnique (x ∷ xs) = (contains xs x ≡ false) × IsUnique xs

pub not_both : {b : Bool} → b ≡ true → b ≡ false → ⊥
not_both p q = cc

-- What holds of both branches holds of the conditional.
pub if_ind {ℓ κ} :
    {A : Type ℓ} (P : A → Type κ) (b : Bool) {x y : A} → P x → P y → P (if b then x else y)
if_ind P true p q = p
if_ind P false p q = q

pub or_left : {a : Bool} (b : Bool) → a ≡ true → a || b ≡ true
or_left {a} b h = ground arith

pub or_right : (a : Bool) {b : Bool} → b ≡ true → a || b ≡ true
or_right a {b} h = ground arith

-- The other alternative, once the first one is refuted.
pub or_other : {a b : Bool} → a ≡ false → a || b ≡ true → b ≡ true
or_other {a} {b} h k = ground arith
