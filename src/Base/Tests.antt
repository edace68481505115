-- ===== src/Base/Tests.antt =====
-- Boolean tests on the native numbers, and the conditional.
use Prim.Native.Nat.{ℕ, ◌≤◌, ◌<◌, compare, Ordering}
use mathlib.Core.Path.{◌≡◌, refl}
use mathlib.Core.Logic.{◌↔◌, ◌⊎◌, inl, inr}
use mathlib.Core.Bool.{Bool, true, false, ◌&&◌, ◌||◌, not}
use mathlib.Core.Option.{Option, none, some}
use native.Mathlib.Omega.{arith}

abbrev pub ltb : ℕ → ℕ → Bool
ltb a b = elim (compare a b) [ Ordering.lt ↦ true | _ ↦ false ]

abbrev pub leb : ℕ → ℕ → Bool
leb a b = elim (compare a b) [ Ordering.gt ↦ false | _ ↦ true ]

infix 50 ◌==◌
abbrev pub ◌==◌ : ℕ → ℕ → Bool
a == b = elim (compare a b) [ Ordering.eq ↦ true | _ ↦ false ]

infix 1 if◌then◌else◌
abbrev pub if◌then◌else◌ {ℓ} : {A : Type ℓ} → Bool → A → A → A
if true then x else y = x
if false then x else y = y

pub ltb→lt : (a b : ℕ) → ltb a b ≡ true → a < b
ltb→lt a b h = ground arith

pub lt→ltb : (a b : ℕ) → a < b → ltb a b ≡ true
lt→ltb a b h = ground arith

pub le→ltb : (a b : ℕ) → b ≤ a → ltb a b ≡ false
le→ltb a b h = ground arith

pub ltb→le : (a b : ℕ) → ltb a b ≡ false → b ≤ a
ltb→le a b h = ground arith

pub leb→le : (a b : ℕ) → leb a b ≡ true → a ≤ b
leb→le a b h = ground arith

pub le→leb : (a b : ℕ) → a ≤ b → leb a b ≡ true
le→leb a b h = ground arith

pub lt→leb : (a b : ℕ) → b < a → leb a b ≡ false
lt→leb a b h = ground arith

pub ==_iff : (a b : ℕ) → ((a == b) ≡ true) ↔ (a ≡ b)
==_iff a b = ground arith

pub ruleset tests = (arith, ltb→lt, lt→ltb, leb→le, le→leb)

-- To split on a computed value and keep the equation.
pub Bool-cases : (b : Bool) → (b ≡ true) ⊎ (b ≡ false)
Bool-cases true = inl refl
Bool-cases false = inr refl

pub Option-cases {ℓ} : {A : Type ℓ} (o : Option A) → (o ≡ none) ⊎ ((a : A) × (o ≡ some a))
Option-cases none = inl refl
Option-cases (some a) = inr (a, refl)

pub and_left : (a b : Bool) → (a && b) ≡ true → a ≡ true
and_left a b h = ground arith

pub and_right : (a b : Bool) → (a && b) ≡ true → b ≡ true
and_right a b h = ground arith

pub is_false : (b : Bool) → not b ≡ true → b ≡ false
is_false b h = ground arith

pub or_left : (a b : Bool) → (a || b) ≡ false → a ≡ false
or_left a b h = ground arith

pub or_right : (a b : Bool) → (a || b) ≡ false → b ≡ false
or_right a b h = ground arith
