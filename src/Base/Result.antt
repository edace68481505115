-- ===== src/Base/Result.antt =====
-- Rust's `Result<A, E>` with the `?` operator as bind.
use mathlib.Core.Path.{◌≡◌, refl, ap, subst}
use mathlib.Core.Logic.{◌⊎◌, inl, inr}
use mathlib.Core.Bool.{Bool, true, false}
use mathlib.Core.List.{List, [], ◌∷◌}

pub data Result {ℓ} (E : Type 0) (A : Type ℓ) : Type ℓ where
  ok : A → Result E A
  err : E → Result E A

infixl 5 ◌>>=◌ ◌>>◌
abbrev pub ◌>>=◌ {ℓ κ} :
    {E : Type 0} {A : Type ℓ} {B : Type κ} → Result E A → (A → Result E B) → Result E B
ok a >>= f = f a
err e >>= f = err e

abbrev pub ◌>>◌ {ℓ} : {E : Type 0} {B : Type ℓ} → Result E (Unit {0}) → Result E B → Result E B
m >> k = m >>= λ _. k

-- `if !test { bail!(e) }`
abbrev pub guard : {E : Type 0} → Bool → E → Result E (Unit {0})
guard true e = ok tt
guard false e = err e

-- `iter().map(f).collect::<Result<Vec<_>>>()`
module _ {E : Type 0} {A B : Type 0} where
  abbrev pub try_map : (A → Result E B) → List A → Result E (List B)
  try_map f [] = ok []
  try_map f (x ∷ xs) = do y ← f x; ys ← try_map f xs; ok (y ∷ ys)

pub >>=-eq_ok {ℓ κ} :
    {E : Type 0} {A : Type ℓ} {B : Type κ} (m : Result E A) (f : A → Result E B) {b : B}
    → (m >>= f) ≡ ok b
    → (a : A) × (m ≡ ok a) × (f a ≡ ok b)
>>=-eq_ok (ok a) f h = (a, refl, h)
>>=-eq_ok (err e) f h = cc

-- The same, where the value is known once the step succeeds.
pub >>=-eq_known {ℓ κ} :
    {E : Type 0} {A : Type ℓ} {B : Type κ} (m : Result E A) (f : A → Result E B) (a : A) {b : B}
    → ((x : A) → m ≡ ok x → x ≡ a)
    → (m >>= f) ≡ ok b
    → (m ≡ ok a) × (f a ≡ ok b)
>>=-eq_known (ok x) f a {b} known h =
    (ap ok (known x refl), subst (λ t. f t ≡ ok b) (known x refl) h)
>>=-eq_known (err e) f a known h = cc

-- To split on a computed result and keep the equation.
pub Result-cases {ℓ} :
    {E : Type 0} {A : Type ℓ} (m : Result E A) → ((e : E) × (m ≡ err e)) ⊎ ((a : A) × (m ≡ ok a))
Result-cases (err e) = inl (e, refl)
Result-cases (ok a) = inr (a, refl)
