-- ===== src/Base/Pow.antt =====
-- Powers of two at variable exponents.
use Prim.Native.Nat.{ℕ, zero, suc, ◌+◌, ◌-◌, ◌*◌, ◌^◌, ◌≤◌, ◌<◌}
use mathlib.Core.Path.{◌≡◌, ap, subst}
use native.Mathlib.Omega.{arith}
use native.Mathlib.Nat.{pow-suc, one-le-pow}

pub two_pow-pos : (k : ℕ) → 0 < 2 ^ k
two_pow-pos k = omega (arith, one-le-pow k 2)

pub two_pow_next : (a : ℕ) → 2 ^ suc a ≡ 2 * 2 ^ a
two_pow_next a = omega (arith, pow-suc 2 a)

pub two_pow-add : (a b : ℕ) → 2 ^ (a + b) ≡ 2 ^ a * 2 ^ b
two_pow-add zero b = ground arith
two_pow-add (suc a) b =
    let e : suc a + b ≡ suc (a + b) = omega arith in
    rw e (
      omega
        (arith, two_pow_next (a + b), two_pow-add a b, ap (λ (t : ℕ). t * 2 ^ b) (two_pow_next a)))

two_pow-le-add : (a d : ℕ) → 2 ^ a ≤ 2 ^ (a + d)
two_pow-le-add a d = grind (arith, two_pow-add a d, two_pow-pos d)

pub two_pow_mono : (a b : ℕ) → a ≤ b → 2 ^ a ≤ 2 ^ b
two_pow_mono a b h =
    let e : a + (b - a) ≡ b = omega arith in subst (λ t. 2 ^ a ≤ 2 ^ t) e (two_pow-le-add a (b - a))
