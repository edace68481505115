-- ===== src/Base/Int.antt =====
-- Signed numbers over the native naturals: `negsuc n` is -(n + 1).
use Prim.Native.Nat.{ℕ, zero, suc, ◌+◌, ◌-◌, ◌*◌, ◌/◌, ◌^◌, ◌<◌, min}
use mathlib.Core.Path.{◌≡◌, refl, ap}
use mathlib.Core.Bool.{Bool, true, false}
use mathlib.Core.Option.{Option, none, some}
use kevindb.Base.Tests.{ltb, leb, ◌==◌, ==_iff, if◌then◌else◌}

pub data ℤ : Type 0 where
  pos : ℕ → ℤ
  negsuc : ℕ → ℤ

abbrev pub int_eq : ℤ → ℤ → Bool
int_eq (pos a) (pos b) = a == b
int_eq (pos a) (negsuc b) = false
int_eq (negsuc a) (pos b) = false
int_eq (negsuc a) (negsuc b) = a == b

abbrev pub int_leb : ℤ → ℤ → Bool
int_leb (pos a) (pos b) = leb a b
int_leb (pos a) (negsuc b) = false
int_leb (negsuc a) (pos b) = true
int_leb (negsuc a) (negsuc b) = leb b a

pub int_eq→eq : (a b : ℤ) → int_eq a b ≡ true → a ≡ b
int_eq→eq (pos a) (pos b) h = ap pos ((==_iff a b).0 h)
int_eq→eq (pos a) (negsuc b) h = cc
int_eq→eq (negsuc a) (pos b) h = cc
int_eq→eq (negsuc a) (negsuc b) h = ap negsuc ((==_iff a b).0 h)

pub int_eq_refl : (a : ℤ) → int_eq a a ≡ true
int_eq_refl (pos a) = (==_iff a a).1 refl
int_eq_refl (negsuc a) = (==_iff a a).1 refl

abbrev pub Int64 : ℤ → Type 0
Int64 (pos a) = a < 2 ^ 63
Int64 (negsuc a) = a < 2 ^ 63

-- `i64::div_euclid` by a positive number
abbrev pub div_euclid : ℤ → ℕ → ℤ
div_euclid (pos a) b = pos (a / b)
div_euclid (negsuc a) b = negsuc (a / b)

-- `i64::saturating_mul` by a number that is not negative
abbrev pub saturating_mul : ℤ → ℕ → ℤ
saturating_mul (pos a) b = pos (min (a * b) (2 ^ 63 - 1))
saturating_mul (negsuc a) zero = pos 0
saturating_mul (negsuc a) (suc b) = negsuc (min ((a + 1) * suc b - 1) (2 ^ 63 - 1))

abbrev int_sub : ℤ → ℕ → ℤ
int_sub (pos a) b = if leb b a then pos (a - b) else negsuc (b - a - 1)
int_sub (negsuc a) b = negsuc (a + b)

abbrev in_i64 : ℤ → Bool
in_i64 (pos a) = ltb a (2 ^ 63)
in_i64 (negsuc a) = ltb a (2 ^ 63)

-- `i64::checked_sub` of a number that is not negative
abbrev pub checked_sub : ℤ → ℕ → Option ℤ
checked_sub a b =
    let difference = int_sub a b in if in_i64 difference then some difference else none

-- The distance from the least i64.
abbrev pub from_least : ℤ → ℕ
from_least (pos a) = 2 ^ 63 + a
from_least (negsuc a) = 2 ^ 63 - 1 - a
