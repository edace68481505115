-- ===== src/Codec/Packing/Number.antt =====
-- The number whose bits a packed block holds: the values as digits of `width` bits.
use kevindb.Base.{
  ℕ, zero, suc, ◌+◌, ◌*◌, ◌^◌, ◌≤◌, ◌<◌, ◌≡◌, refl, ap, arith, inl, inr, List, [], ◌∷◌, All, length,
  Bool-cases, ltb, ltb→lt,
}
use kevindb.Base.Pow.{two_pow-add, two_pow_mono}
use native.Mathlib.Nat.{pow-suc}

-- The first value stands in the lowest bits.
abbrev pub fields : ℕ → List ℕ → ℕ
fields width [] = 0
fields width (v ∷ vs) = v + 2 ^ width * fields width vs

abbrev pub Fits : ℕ → ℕ → Type 0
Fits width v = v < 2 ^ width

quotient_le : (P q q' r r' : ℕ) → r < P → r' < P → q * P + r ≡ q' * P + r' → q ≤ q'
quotient_le P q q' r r' h h' e = elim (Bool-cases (ltb q' q)) [
  | inl lt ↦
      let p : suc q' * P ≤ q * P = (let l : suc q' ≤ q = ltb→lt q' q lt in grind arith) in
      absurd (omega arith)
  | inr ge ↦ ground arith
]

-- Quotient and remainder are unique.
pub euclid : (P q q' r r' : ℕ) → r < P → r' < P → q * P + r ≡ q' * P + r' → (q ≡ q') × (r ≡ r')
euclid P q q' r r' h h' e =
    let a : q ≤ q' = quotient_le P q q' r r' h h' e in
    let b : q' ≤ q = quotient_le P q' q r' r h' h (omega arith) in
    let s : q ≡ q' = omega arith in (s, omega (arith, ap (λ (t : ℕ). t * P) s))

fields_below_step : (w v F n : ℕ) → v < 2 ^ w → F < 2 ^ (w * n) → v + 2 ^ w * F < 2 ^ (w + w * n)
fields_below_step w v F n hv hF =
    let p : 2 ^ w * (F + 1) ≤ 2 ^ w * 2 ^ (w * n) =
      (let l : F + 1 ≤ 2 ^ (w * n) = omega arith in grind arith) in
    omega (arith, two_pow-add w (w * n))

pub fields_below : (w : ℕ) (vs : List ℕ) → All (Fits w) vs → fields w vs < 2 ^ (w * length vs)
fields_below w [] h = let e : w * 0 ≡ 0 = omega arith in rw e (omega arith)
fields_below w (v ∷ vs) h =
    let e : w * suc (length vs) ≡ w + w * length vs = omega arith in
    rw e (fields_below_step w v (fields w vs) (length vs) h.0 (fields_below w vs h.1))

two_pow-eight : (n : ℕ) → 256 ^ n ≡ 2 ^ (8 * n)
two_pow-eight zero = refl
two_pow-eight (suc n) =
    let e : 8 * suc n ≡ 8 + 8 * n = omega arith in
    rw e (omega (arith, two_pow-eight n, two_pow-add 8 (8 * n), pow-suc 256 n))

-- A block's bytes hold its number.
pub fields_fit :
    (w n : ℕ) (vs : List ℕ) → All (Fits w) vs → w * length vs ≤ 8 * n → fields w vs < 256 ^ n
fields_fit w n vs h k =
    omega (arith, fields_below w vs h, two_pow_mono (w * length vs) (8 * n) k, two_pow-eight n)
