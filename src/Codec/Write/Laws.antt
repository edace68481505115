-- ===== src/Codec/Write/Laws.antt =====
-- What the writers append: little-endian words read back, and the bytes of a vint.
use kevindb.Base.{
  All, ℕ, zero, suc, ◌+◌, ◌/◌, ◌%◌, ◌^◌, ◌≤◌, ◌<◌, ◌≡◌, refl, ap, ◌∙◌, arith, inl, inr, [], ◌∷◌,
  ◌++◌, append_assoc, leb, length, if◌then◌else◌, Bool-cases, leb→le,
}
use kevindb.Base.Bits.{bit_or-top}
use kevindb.Codec.Types.{Bytes, IsByte}
use kevindb.Codec.Write.{to_le_bytes, from_le_bytes, put_vint_loop, put_vint}

pub length-to_le_bytes : (n value : ℕ) → length (to_le_bytes n value) ≡ n
length-to_le_bytes zero value = refl
length-to_le_bytes (suc n) value = ap suc (length-to_le_bytes n (value / 256))

-- A word that fits its bytes is read back.
pub from_le_bytes-to_le_bytes :
    (n value : ℕ) → value < 256 ^ n → from_le_bytes (to_le_bytes n value) ≡ value
from_le_bytes-to_le_bytes zero value h = omega arith
from_le_bytes-to_le_bytes (suc n) value h =
    omega (arith, from_le_bytes-to_le_bytes n (value / 256) (ground arith))

-- The bytes of a vint, from the low group of seven bits on.
abbrev pub vint_bytes : ℕ → ℕ → Bytes
vint_bytes zero value = value ∷ []
vint_bytes (suc fuel) value =
    let more = (value % 128 + 128) ∷ vint_bytes fuel (value / 128) in
    if leb 0x80 value then more else value ∷ []

put_vint_loop-vint_bytes :
    (fuel : ℕ) (out : Bytes) (value : ℕ)
    → value ≤ fuel
    → put_vint_loop fuel out value ≡ out ++ vint_bytes fuel value
unfolding put_vint_loop
put_vint_loop-vint_bytes zero out value h = let e : value % 256 ≡ value = omega arith in rw e
put_vint_loop-vint_bytes (suc fuel) out value h = elim (Bool-cases (leb 0x80 value)) [
  | inl more ↦
      rw (more, bit_or-top (value % 256) (omega arith))
        (let e : value % 256 % 128 ≡ value % 128 = omega arith in
          rw e (
            put_vint_loop-vint_bytes fuel _ (value / 128) (omega (arith, leb→le 0x80 value more))
            ∙ append_assoc out _ _))
  | inr last ↦ let e : value % 256 ≡ value = ground arith in rw (last, e)
]

pub put_vint-vint_bytes :
    (out : Bytes) (value : ℕ) → put_vint out value ≡ out ++ vint_bytes value value
unfolding put_vint
put_vint-vint_bytes out value = put_vint_loop-vint_bytes value out value (omega arith)

pub to_le_bytes-IsByte : (n value : ℕ) → All IsByte (to_le_bytes n value)
to_le_bytes-IsByte zero value = tt
to_le_bytes-IsByte (suc n) value = (omega arith, to_le_bytes-IsByte n (value / 256))
