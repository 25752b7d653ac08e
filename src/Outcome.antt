-- ===== src/Outcome.antt =====
-- Results of code that may throw. `out_of_range` is the exception that `std::map::at` throws on a
-- missing key; `bad_dereference` stands for the undefined behaviour of a null pointer or an end
-- iterator that is dereferenced; `out_of_fuel` is no behaviour of the program but the bound of a
-- modelled recursion.
use icsa_dswp.Prelude.{◌≡◌, refl, subst, List, [], ◌∷◌}

pub data Error : Type 0 where
  out_of_range bad_dereference out_of_fuel : Error

pub data Outcome {ℓ} (A : Type ℓ) : Type ℓ where
  ok : A → Outcome A
  err : Error → Outcome A

infixl 5 ◌>>=◌
abbrev pub ◌>>=◌ {ℓ κ} : {A : Type ℓ} {B : Type κ} → Outcome A → (A → Outcome B) → Outcome B
ok a >>= f = f a
err e >>= f = err e

-- A `for` loop over the elements of a container, whose body may throw.
unfoldable pub for_each {ℓ κ} :
    {A : Type ℓ} {S : Type κ} → (A → S → Outcome S) → List A → S → Outcome S
for_each body [] s = ok s
for_each body (x ∷ xs) s = do s' ← body x s; for_each body xs s'

pub ok_injective {ℓ} : {A : Type ℓ} {a b : A} → ok a ≡ ok b → a ≡ b
ok_injective e = cc

err_not_ok {ℓ} : {A : Type ℓ} {x : Error} {a : A} → err x ≡ ok a → ⊥
err_not_ok e = cc

-- A chain succeeds only if its first part does.
pub bind_ok {κ μ} :
    {A : Type κ} {B : Type μ} {f : A → Outcome B} {b : B} (o : Outcome A)
    → o >>= f ≡ ok b
    → (a : A) × (o ≡ ok a) × (f a ≡ ok b)
bind_ok (ok a) e = (a, refl, e)
bind_ok (err x) e = absurd (err_not_ok e)

-- What each round of a loop preserves, the loop preserves.
pub for_each_invariant {ℓ κ μ} :
    {A : Type ℓ} {S : Type κ} (P : S → Type μ) (body : A → S → Outcome S)
    → ((x : A) (s t : S) → P s → body x s ≡ ok t → P t)
    → (xs : List A) (s t : S) → P s
    → for_each body xs s ≡ ok t
    → P t
unfolding for_each
for_each_invariant P body keep [] s t p e = subst P (ok_injective e) p
for_each_invariant P body keep (x ∷ xs) s t p e =
    let (s', first, rest) = bind_ok (body x s) e in
    for_each_invariant P body keep xs s' t (keep x s s' p first) rest
