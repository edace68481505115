-- ===== src/Codec/Packing/Unpack.antt =====
-- `unpack_bits` and the number whose bytes it is given.
use Prim.Native.Nat.{bit_or, bit_and}
use kevindb.Base.{
  ℕ, zero, suc, ◌+◌, ◌-◌, ◌*◌, ◌/◌, ◌%◌, ◌^◌, ◌≤◌, ◌<◌, ◌≡◌, refl, ap, arith, inl, inr, List, [],
  ◌∷◌, All, length, Bool-cases, ltb, ◌==◌, ltb→lt, ltb→le, some, get_elem?, drop, ==_iff,
}
use native.Mathlib.Nat.{div-add-mod}
use kevindb.Base.Bits.{bit_or-shift, bit_and-mask}
use kevindb.Base.Pow.{two_pow-add, two_pow_mono, two_pow-pos}
use kevindb.Base.Result.{ok}
use kevindb.Codec.Types.{Bytes, IsByte, u64_mod, u32_mod}
use kevindb.Codec.Write.{from_le_bytes}
use kevindb.Codec.Packing.{Unpacker, mask, fill, unpack_loop}
use kevindb.Codec.Packing.Number.{fields, Fits, euclid}

-- The number that is still to be read, `number`, and the bits that are left for it, `left`.
pub record Holds (bytes : Bytes) (number left : ℕ) (u : Unpacker) : Type 0 where
  pub small : u.accumulator < 2 ^ u.bits
  pub stands : u.accumulator + 2 ^ u.bits * from_le_bytes (drop u.offset bytes) ≡ number
  pub enough : left ≤ u.bits + 8 * length (drop u.offset bytes)
  pub tail : All IsByte (drop u.offset bytes)

get_elem?-drop :
    (bytes : Bytes) (i : ℕ)
    → 0 < length (drop i bytes)
    → (b : ℕ) × (get_elem? bytes i ≡ some b) × (drop i bytes ≡ b ∷ drop (suc i) bytes)
get_elem?-drop [] zero h = absurd (omega arith)
get_elem?-drop [] (suc i) h = absurd (omega arith)
get_elem?-drop (b ∷ bytes) zero h = (b, refl, refl)
get_elem?-drop (b ∷ bytes) (suc i) h = get_elem?-drop bytes i h

abbrev with_byte : Unpacker → ℕ → Unpacker
with_byte u byte = record {
  accumulator = bit_or u.accumulator (byte * 2 ^ u.bits % u64_mod);
  bits = u.bits + 8;
  offset = u.offset + 1;
}

join_byte :
    (acc bits b : ℕ)
    → acc < 2 ^ bits
    → b < 256
    → bits < 32
    → (bit_or acc (b * 2 ^ bits % u64_mod) ≡ acc + b * 2 ^ bits)
      × (acc + b * 2 ^ bits < 2 ^ (bits + 8))
join_byte acc bits b ha hb h =
    let p : suc b * 2 ^ bits ≤ 256 * 2 ^ bits = (let l : suc b ≤ 256 = hb in grind arith) in
    let t : 2 ^ bits ≤ 2 ^ 32 = two_pow_mono bits 32 (omega arith) in
    (ground (arith, bit_or-shift bits b acc ha), omega (arith, two_pow-add bits 8))

with_byte-Holds :
    (bytes : Bytes) (N L b : ℕ) (u : Unpacker)
    → u.bits < 32
    → drop u.offset bytes ≡ b ∷ drop (suc u.offset) bytes
    → Holds bytes N L u
    → Holds bytes N L (with_byte u b)
with_byte-Holds bytes N L b u hb e h =
    let next : u.offset + 1 ≡ suc u.offset = omega arith in
    let tail : All IsByte (b ∷ drop (suc u.offset) bytes) = rw e at h.tail in
    let (sum, fits) = join_byte u.accumulator u.bits b h.small tail.0 hb in
    let stands : u.accumulator + 2 ^ u.bits * (b + 256 * from_le_bytes (drop (suc u.offset) bytes))
        ≡ N =
      rw e at h.stands in
    let enough : L ≤ u.bits + 8 * suc (length (drop (suc u.offset) bytes)) = rw e at h.enough in
    record {
      small = rw sum fits;
      stands =
          rw (sum, next)
            (omega (
              arith,
              stands,
              ap (λ (t : ℕ). t * from_le_bytes (drop (suc u.offset) bytes)) (two_pow-add u.bits 8),
            ));
      enough = rw next (omega (arith, enough));
      tail = rw next tail.1;
    }

fill-Holds :
    (fuel : ℕ) (bytes : Bytes) (w N L : ℕ) (u : Unpacker)
    → w ≤ fuel + u.bits
    → w ≤ L
    → w ≤ 32
    → Holds bytes N L u
    → (u' : Unpacker) × (fill fuel bytes w u ≡ ok u') × Holds bytes N L u' × (w ≤ u'.bits)
unfolding fill
fill-Holds zero bytes w N L u hf hL hw h = (u, refl, h, omega arith)
fill-Holds (suc fuel) bytes w N L u hf hL hw h = elim (Bool-cases (ltb u.bits w)) [
  | inl more ↦
      let lt : u.bits < w = ltb→lt u.bits w more in
      let (b, found, e) = get_elem?-drop bytes u.offset (omega (arith, h.enough)) in
      let (u', filled, holds, full) =
        fill-Holds fuel bytes w N L (with_byte u b) (omega arith) hL hw
          (with_byte-Holds bytes N L b u (omega arith) e h) in
      (u', rw (more, found) filled, holds, full)
  | inr full ↦ (u, rw full, h, ltb→le u.bits w full)
]

mod_below : (a P : ℕ) → 0 < P → a % P < P
mod_below a P h = grind arith

mask-pow : (w : ℕ) → mask w ≡ 2 ^ w - 1
mask-pow w = elim (Bool-cases (w == 32)) [
  | inl full ↦ let e : w ≡ 32 = (==_iff w 32).0 full in rw e refl
  | inr less ↦ rw less
]

low_value : (acc w : ℕ) → w ≤ 32 → bit_and acc (mask w) % u32_mod ≡ acc % 2 ^ w
low_value acc w h =
    let below : acc % 2 ^ w < 2 ^ w = mod_below acc (2 ^ w) (two_pow-pos w) in
    rw (mask-pow w, bit_and-mask w acc) (omega (arith, two_pow_mono w 32 h))

quotient_fits : (acc w d : ℕ) → acc < 2 ^ (d + w) → acc / 2 ^ w < 2 ^ d
quotient_fits acc w d h = elim (Bool-cases (ltb (acc / 2 ^ w) (2 ^ d))) [
  | inl lt ↦ ltb→lt _ _ lt
  | inr ge ↦
      let l : 2 ^ d ≤ acc / 2 ^ w = ltb→le _ _ ge in
      let p : 2 ^ d * 2 ^ w ≤ acc / 2 ^ w * 2 ^ w = grind arith in
      absurd (omega (arith, div-add-mod acc (2 ^ w), two_pow-add d w))
]

-- Taking a value of `w` bits off the accumulator.
take_value :
    (acc w d R v F : ℕ)
    → v < 2 ^ w
    → acc + 2 ^ (d + w) * R ≡ v + 2 ^ w * F
    → (acc / 2 ^ w + 2 ^ d * R ≡ F) × (acc % 2 ^ w ≡ v)
take_value acc w d R v F hv e =
    euclid (2 ^ w) (acc / 2 ^ w + 2 ^ d * R) F (acc % 2 ^ w) v
      (mod_below acc (2 ^ w) (two_pow-pos w)) hv
      (omega (arith, e, div-add-mod acc (2 ^ w), ap (λ (t : ℕ). t * R) (two_pow-add d w)))

pub unpack_loop-fields :
    (vs : List ℕ) (bytes : Bytes) (w : ℕ) (u : Unpacker)
    → All (Fits w) vs
    → w ≤ 32
    → Holds bytes (fields w vs) (w * length vs) u
    → unpack_loop (length vs) bytes w u ≡ ok vs
unfolding unpack_loop
unpack_loop-fields [] bytes w u h hw hold = refl
unpack_loop-fields (v ∷ vs) bytes w u h hw hold =
    let total : w * suc (length vs) ≡ w + w * length vs = omega arith in
    let (u', filled, holds, full) =
      fill-Holds w bytes w (fields w (v ∷ vs)) (w * suc (length vs)) u (omega arith) (omega arith)
        hw hold in
    let d : u'.bits - w + w ≡ u'.bits = omega arith in
    let (rest, value) =
      take_value u'.accumulator w (u'.bits - w) (from_le_bytes (drop u'.offset bytes)) v
        (fields w vs) h.0 (rw d holds.stands) in
    let ih =
      unpack_loop-fields vs bytes w
        (record u' { accumulator = u'.accumulator / 2 ^ w; bits = u'.bits - w }) h.1 hw
        (record {
          small = quotient_fits u'.accumulator w (u'.bits - w) (rw d holds.small);
          stands = rest;
          enough = omega (arith, holds.enough);
          tail = holds.tail;
        }) in
    rw (filled, low_value u'.accumulator w hw, value, ih)
