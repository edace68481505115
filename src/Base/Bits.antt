-- ===== src/Base/Bits.antt =====
-- `|` with a value shifted past the other operand, and `&` with a mask of low ones, as arithmetic.
-- Both are proved at every width from one equation for the lowest binary digit.
use Prim.Native.Nat.{
  ℕ, zero, suc, ◌+◌, ◌-◌, ◌*◌, ◌/◌, ◌%◌, ◌^◌, ◌≤◌, ◌<◌, min, max, digits, bit_and, bit_or,
  bit_and-bitwise, bit_or-bitwise,
}
use mathlib.Core.Path.{◌≡◌, refl, ap}
use mathlib.Core.Bool.{Bool, true, false}
use native.Mathlib.Omega.{arith}
use native.Mathlib.Nat.{pow-suc, one-le-pow}
use kevindb.Base.Tests.{◌==◌, ==_iff, if◌then◌else◌}

module _ (pad : ℕ → ℕ) (op : ℕ → ℕ → ℕ) where
  -- Any fuel from the first operand on gives the same digits.
  digits_enough : (k l x y : ℕ) → x ≤ l → x ≤ k → digits pad op k x y ≡ digits pad op l x y
  digits_enough zero zero x y hl hk = refl
  digits_enough (suc k) zero zero y hl hk = refl
  digits_enough (suc k) zero (suc x) y hl hk = absurd (omega arith)
  digits_enough zero (suc l) (suc x) y hl hk = absurd (omega arith)
  digits_enough zero (suc l) zero y hl hk = refl
  digits_enough (suc k) (suc l) zero y hl hk = refl
  digits_enough (suc k) (suc l) (suc x) y hl hk =
      let halves = digits_enough k l (suc x / 2) (y / 2) (omega arith) (omega arith) in rw halves

  digits-next :
      (x y : ℕ)
      → digits pad op (suc x) (suc x) y
        ≡ digits pad op (suc x / 2) (suc x / 2) (y / 2) * 2 + op (suc x % 2) (y % 2)
  digits-next x y =
      let half = suc x / 2 in
      let same = digits_enough x half half (y / 2) (omega arith) (omega arith) in
      omega (arith, same)

bit_or-low : (a b : ℕ) → bit_or a b ≡ bit_or (a / 2) (b / 2) * 2 + max (a % 2) (b % 2)
bit_or-low zero b = simp bit_or-bitwise (omega arith)
bit_or-low (suc a) b = simp bit_or-bitwise (digits-next (λ y. y) max a b)

bit_and-low : (a b : ℕ) → bit_and a b ≡ bit_and (a / 2) (b / 2) * 2 + min (a % 2) (b % 2)
bit_and-low zero b = simp bit_and-bitwise (omega arith)
bit_and-low (suc a) b = simp bit_and-bitwise (digits-next (λ y. 0) min a b)

zero-bit_or : (b : ℕ) → bit_or 0 b ≡ b
zero-bit_or b = bit_or-bitwise 0 b

bit_and-zero_below : (n a : ℕ) → a ≤ n → bit_and a 0 ≡ 0
bit_and-zero_below n zero h = bit_and-bitwise 0 0
bit_and-zero_below zero (suc a) h = absurd (omega arith)
bit_and-zero_below (suc n) (suc a) h =
    omega (arith, bit_and-low (suc a) 0, bit_and-zero_below n (suc a / 2) (omega arith))

shift_double : (q k : ℕ) → q * 2 ^ suc k ≡ 2 * (q * 2 ^ k)
shift_double q k = omega (arith, ap (λ (t : ℕ). q * t) (pow-suc 2 k))

-- `r | (q << k)` is a sum where `r` has no bit at `k` or above.
pub bit_or-shift : (k q r : ℕ) → r < 2 ^ k → bit_or r (q * 2 ^ k) ≡ r + q * 2 ^ k
bit_or-shift zero q zero h = ground (arith, zero-bit_or (q * 2 ^ 0))
bit_or-shift zero q (suc r) h = absurd (omega arith)
bit_or-shift (suc k) q r h = ground (
  arith,
  bit_or-low r (q * 2 ^ suc k),
  shift_double q k,
  pow-suc 2 k,
  bit_or-shift k q (r / 2) (omega (arith, pow-suc 2 k)),
)

bit_and-parts : (k q r : ℕ) → r < 2 ^ k → bit_and (q * 2 ^ k + r) (2 ^ k - 1) ≡ r
bit_and-parts zero q r h =
    omega (arith, bit_and-zero_below (q * 2 ^ 0 + r) (q * 2 ^ 0 + r) (omega arith))
bit_and-parts (suc k) q r h = ground (
  arith,
  bit_and-low (q * 2 ^ suc k + r) (2 ^ suc k - 1),
  shift_double q k,
  pow-suc 2 k,
  one-le-pow k 2,
  bit_and-parts k q (r / 2) (omega (arith, pow-suc 2 k)),
)

-- The mask of `k` low ones takes the remainder by `2 ^ k`.
pub bit_and-mask : (k a : ℕ) → bit_and a (2 ^ k - 1) ≡ a % 2 ^ k
bit_and-mask k a = ground (arith, one-le-pow k 2, bit_and-parts k (a / 2 ^ k) (a % 2 ^ k))

-- A test at every number below a bound, from the greatest down.
holds_to : (ℕ → Bool) → ℕ → Bool
holds_to test zero = true
holds_to test (suc k) = if test k then holds_to test k else false

holds_to-lt : (test : ℕ → Bool) (k i : ℕ) → holds_to test k ≡ true → i < k → test i ≡ true
unfolding holds_to
holds_to-lt test zero i all below = absurd (omega arith)
holds_to-lt test (suc k) i all below = ground (arith, holds_to-lt test k i)

module _ (f g : ℕ → ℕ) where
  -- Two functions of a byte that agree on all 256 of them.
  bytes_agree : holds_to (λ i. f i == g i) 256 ≡ true → (b : ℕ) → b < 256 → f b ≡ g b
  bytes_agree all b small = (==_iff (f b) (g b)).0 (holds_to-lt (λ i. f i == g i) 256 b all small)

-- `byte | 0x80`
pub bit_or-top : (b : ℕ) → b < 256 → bit_or b 0x80 ≡ b % 128 + 128
unfolding holds_to
bit_or-top = bytes_agree (λ b. bit_or b 0x80) (λ b. b % 128 + 128) refl

-- `byte & 0x7f`
pub bit_and-seven_low : (b : ℕ) → b < 256 → bit_and b 0x7f ≡ b % 128
unfolding holds_to
bit_and-seven_low = bytes_agree (λ b. bit_and b 0x7f) (λ b. b % 128) refl

-- `byte & 0x80`
pub bit_and-top : (b : ℕ) → b < 256 → bit_and b 0x80 ≡ b / 128 * 128
unfolding holds_to
bit_and-top = bytes_agree (λ b. bit_and b 0x80) (λ b. b / 128 * 128) refl
