-- ===== src/Codec/Packing/Pack.antt =====
-- What `pack_bits` writes: the little-endian bytes of the block's number.
use Prim.Native.Nat.{bit_or}
use kevindb.Base.{
  ℕ, zero, suc, ◌+◌, ◌-◌, ◌*◌, ◌/◌, ◌%◌, ◌^◌, ◌≤◌, ◌<◌, ◌≡◌, refl, ap, ◌∙◌, subst, arith, inl, inr,
  false, List, [], ◌∷◌, ◌++◌, append_assoc, append-nil, All, length, Bool-cases, ltb, leb, ◌==◌,
  leb→le, ltb→lt, ltb→le,
}
use kevindb.Base.Bits.{bit_or-shift}
use kevindb.Base.Pow.{two_pow-add, two_pow_mono}
use kevindb.Codec.Types.{Bytes, u64_mod}
use kevindb.Codec.Write.{to_le_bytes}
use kevindb.Codec.Packing.{bit_width, leading_zeros, drain, pack_loop, pack_bits}
use kevindb.Codec.Packing.Number.{fields, Fits}

shift_eight : (b F : ℕ) → 2 ^ (b + 8) * F ≡ 256 * (2 ^ b * F)
shift_eight b F = omega (arith, ap (λ (t : ℕ). t * F) (two_pow-add b 8))

-- Draining moves whole bytes to the output and keeps the number that is still to be written,
-- here with `c` more bits that hold `F`.
pub record Drained (acc bits : ℕ) (out : Bytes) (c F : ℕ) (d : ℕ × ℕ × Bytes) : Type 0 where
  pub few : d.1 < 8
  pub fits : d.0 < 2 ^ d.1
  pub same :
      d.2 ++ to_le_bytes ((d.1 + c + 7) / 8) (d.0 + 2 ^ d.1 * F)
      ≡ out ++ to_le_bytes ((bits + c + 7) / 8) (acc + 2 ^ bits * F)

drain_round :
    (acc b c F : ℕ) (out : Bytes)
    → (out ++ (acc % 256 ∷ [])) ++ to_le_bytes ((b + c + 7) / 8) (acc / 256 + 2 ^ b * F)
      ≡ out ++ to_le_bytes ((b + 8 + c + 7) / 8) (acc + 2 ^ (b + 8) * F)
drain_round acc b c F out =
    let n : (b + 8 + c + 7) / 8 ≡ suc ((b + c + 7) / 8) = omega arith in
    let r : (acc + 2 ^ (b + 8) * F) % 256 ≡ acc % 256 = omega (arith, shift_eight b F) in
    let q : (acc + 2 ^ (b + 8) * F) / 256 ≡ acc / 256 + 2 ^ b * F =
      omega (arith, shift_eight b F) in
    rw (append_assoc out, n, r, q)

Drained-round :
    (acc b c F : ℕ) (out : Bytes) (d : ℕ × ℕ × Bytes)
    → Drained (acc / 256) b (out ++ (acc % 256 ∷ [])) c F d
    → Drained acc (b + 8) out c F d
Drained-round acc b c F out d h = record {
  few = h.few;
  fits = h.fits;
  same = h.same ∙ drain_round acc b c F out;
}

byte_off : (acc b : ℕ) → acc < 2 ^ (b + 8) → acc / 256 < 2 ^ b
byte_off acc b h = omega (arith, two_pow-add b 8)

drain-Drained :
    (fuel acc bits : ℕ) (out : Bytes) (c F : ℕ)
    → bits ≤ fuel
    → acc < 2 ^ bits
    → Drained acc bits out c F (drain fuel acc bits out)
unfolding drain
drain-Drained zero acc bits out c F h fits = record { few = omega arith; fits = fits; same = refl }
drain-Drained (suc fuel) acc bits out c F h fits = elim (Bool-cases (leb 8 bits)) [
  | inl more ↦
      let e : bits - 8 + 8 ≡ bits = omega (arith, leb→le 8 bits more) in
      rw more (
        subst
          (λ t. Drained acc t out c F (drain fuel (acc / 256) (bits - 8) (out ++ (acc % 256 ∷ []))))
          e
          (Drained-round acc (bits - 8) c F out _ (
            drain-Drained fuel (acc / 256) (bits - 8) (out ++ (acc % 256 ∷ [])) c F
              (omega (arith, h)) (byte_off acc (bits - 8) (rw e fits)))))
  | inr few ↦ rw few (record { few = ground arith; fits = fits; same = refl })
]

-- One value joins the accumulator.
join_value :
    (w v F acc bits : ℕ)
    → Fits w v
    → acc < 2 ^ bits
    → bits + w < 64
    → (bit_or acc (v * 2 ^ bits % u64_mod) ≡ acc + v * 2 ^ bits)
      × (acc + v * 2 ^ bits < 2 ^ (bits + w))
      × (acc + v * 2 ^ bits + 2 ^ (bits + w) * F ≡ acc + 2 ^ bits * (v + 2 ^ w * F))
join_value w v F acc bits hv ha hb =
    let p : v * 2 ^ bits + 2 ^ bits ≤ 2 ^ (bits + w) =
      (let l : suc v * 2 ^ bits ≤ 2 ^ w * 2 ^ bits = grind arith in
        omega (arith, two_pow-add bits w)) in
    let t : 2 ^ (bits + w) ≤ 2 ^ 64 = two_pow_mono (bits + w) 64 (omega arith) in
    (
      ground (arith, bit_or-shift bits v acc ha),
      omega arith,
      omega (arith, ap (λ (t : ℕ). t * F) (two_pow-add bits w)),
    )

pack_loop-to_le_bytes :
    (vs : List ℕ) (w acc bits : ℕ) (out : Bytes)
    → All (Fits w) vs
    → w ≤ 32
    → bits < 8
    → acc < 2 ^ bits
    → pack_loop vs w acc bits out
      ≡ out ++ to_le_bytes ((bits + w * length vs + 7) / 8) (acc + 2 ^ bits * fields w vs)
unfolding pack_loop
pack_loop-to_le_bytes [] w acc bits out h hw hb ha = elim (Bool-cases (ltb 0 bits)) [
  | inl left ↦
      let n : (bits + w * 0 + 7) / 8 ≡ 1 = omega (arith, ltb→lt 0 bits left) in
      let r : acc % 256 ≡ (acc + 2 ^ bits * 0) % 256 = omega arith in rw (left, n, r)
  | inr empty ↦
      let n : (bits + w * 0 + 7) / 8 ≡ 0 = omega (arith, ltb→le 0 bits empty) in
      rw (empty, n, append-nil out)
]
pack_loop-to_le_bytes (v ∷ vs) w acc bits out h hw hb ha =
    let (sum, fits, number) = join_value w v (fields w vs) acc bits h.0 ha (omega arith) in
    let d =
      drain-Drained (bits + w) (acc + v * 2 ^ bits) (bits + w) out (w * length vs) (fields w vs)
        (omega arith) fits in
    let n : bits + w + w * length vs + 7 ≡ bits + w * suc (length vs) + 7 = omega arith in
    rw (sum, ← n, ← number) (pack_loop-to_le_bytes vs w _ _ _ h.1 hw d.few d.fits ∙ d.same)

-- The block's number, in as few bytes as hold its bits.
pub pack_bits-to_le_bytes :
    (vs : List ℕ) (w : ℕ) (out : Bytes)
    → All (Fits w) vs
    → w ≤ 32
    → 0 < w
    → pack_bits vs w out ≡ out ++ to_le_bytes ((w * length vs + 7) / 8) (fields w vs)
unfolding pack_bits
pack_bits-to_le_bytes vs w out h hw pos =
    let off : (w == 0) ≡ false = ground arith in
    let n : 0 + w * length vs + 7 ≡ w * length vs + 7 = omega arith in
    let e : 0 + 2 ^ 0 * fields w vs ≡ fields w vs = omega arith in
    rw off (
      subst (λ t. pack_loop vs w 0 0 out ≡ out ++ to_le_bytes (t / 8) (fields w vs)) n
        (subst (λ t. pack_loop vs w 0 0 out ≡ out ++ to_le_bytes ((0 + w * length vs + 7) / 8) t) e
          (pack_loop-to_le_bytes vs w 0 0 out h hw (omega arith) (omega arith))))

-- Every u32 fits the bits that `leading_zeros` leaves.
leading_zeros_fit :
    (k n : ℕ) → n < 2 ^ k → (leading_zeros k n ≤ k) × (n < 2 ^ (k - leading_zeros k n))
unfolding leading_zeros
leading_zeros_fit zero n h = (omega arith, h)
leading_zeros_fit (suc k) n h = elim (Bool-cases (leb (2 ^ k) n)) [
  | inl big ↦ let e : suc k - 0 ≡ suc k = omega arith in rw big (omega arith, rw e h)
  | inr small ↦
      let ih = leading_zeros_fit k n (ground arith) in
      let e : suc k - suc (leading_zeros k n) ≡ k - leading_zeros k n = omega arith in
      rw small (omega arith, rw e ih.1)
]

pub bit_width_fits : (max : ℕ) → max < 2 ^ 32 → (bit_width max ≤ 32) × (max < 2 ^ bit_width max)
unfolding bit_width
bit_width_fits max h = elim (Bool-cases (max == 0)) [
  | inl null ↦ rw null (omega arith, ground arith)
  | inr more ↦ rw more (omega arith, (leading_zeros_fit 32 max h).1)
]
