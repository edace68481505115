-- ===== src/Codec/Packing/RoundTrip.antt =====
-- `unpack_bits` behind `pack_bits`.
use kevindb.Base.{
  ℕ, zero, suc, ◌+◌, ◌*◌, ◌/◌, ◌≤◌, ◌<◌, ◌≡◌, refl, sym, ap, arith, false, List, [], ◌∷◌, ◌++◌,
  append-nil, All, length, ◌==◌, ltb,
}
use kevindb.Base.Result.{ok}
use kevindb.Codec.Types.{Bytes, u64_mod}
use kevindb.Codec.Write.{to_le_bytes}
use kevindb.Codec.Write.Laws.{from_le_bytes-to_le_bytes, length-to_le_bytes, to_le_bytes-IsByte}
use kevindb.Codec.Packing.{pack_bits, unpack_bits, zeros, packed_len}
use kevindb.Codec.Packing.Number.{fields, Fits, fields_fit}
use kevindb.Codec.Packing.Pack.{pack_bits-to_le_bytes}
use kevindb.Codec.Packing.Unpack.{Holds, unpack_loop-fields}

-- The bytes that a block adds.
abbrev pub block : List ℕ → ℕ → Bytes
block vs w = to_le_bytes ((w * length vs + 7) / 8) (fields w vs)

fields_zero : (vs : List ℕ) → All (Fits 0) vs → (fields 0 vs ≡ 0) × (zeros (length vs) ≡ vs)
fields_zero [] h = (refl, refl)
fields_zero (v ∷ vs) h =
    let (none, same) = fields_zero vs h.1 in
    let e : v ≡ 0 = omega arith in (omega (arith, none), rw (e, same))

pub pack_bits-block :
    (vs : List ℕ) (w : ℕ) (out : Bytes)
    → All (Fits w) vs
    → w ≤ 32
    → pack_bits vs w out ≡ out ++ block vs w
pack_bits-block vs zero out h hw =
    unfold pack_bits in
    let e : (0 * length vs + 7) / 8 ≡ 0 = omega arith in rw e (sym (append-nil out))
pack_bits-block vs (suc w) out h hw = pack_bits-to_le_bytes vs (suc w) out h hw (omega arith)

pub length-block :
    (vs : List ℕ) (w : ℕ) → length vs * w < u64_mod → length (block vs w) ≡ packed_len (length vs) w
unfolding packed_len
length-block vs w h = rw (length-to_le_bytes ((w * length vs + 7) / 8) (fields w vs)) (grind arith)

block-Holds :
    (vs : List ℕ) (w : ℕ)
    → All (Fits w) vs
    → Holds
        (block vs w)
        (fields w vs)
        (w * length vs)
        (record { accumulator = 0; bits = 0; offset = 0 })
block-Holds vs w h =
    let n = (w * length vs + 7) / 8 in
    let k : w * length vs ≤ 8 * ((w * length vs + 7) / 8) = omega arith in
    let number = from_le_bytes-to_le_bytes n (fields w vs) (fields_fit w n vs h k) in
    record {
      small = omega arith;
      stands = omega (arith, number);
      enough = omega (arith, length-to_le_bytes n (fields w vs));
      tail = to_le_bytes-IsByte n (fields w vs);
    }

pub unpack_bits-block :
    (vs : List ℕ) (w : ℕ)
    → All (Fits w) vs
    → w ≤ 32
    → unpack_bits (block vs w) (length vs) w ≡ ok vs
unfolding unpack_bits
unpack_bits-block vs zero h hw = ap ok (fields_zero vs h).1
unpack_bits-block vs (suc w) h hw =
    let wide : ltb 32 (suc w) ≡ false = ground arith in
    let some_width : (suc w == 0) ≡ false = ground arith in
    rw (wide, some_width)
      (unpack_loop-fields vs (block vs (suc w)) (suc w) _ h hw (block-Holds vs (suc w) h))

-- Unpacking the bytes that `pack_bits` adds gives the packed values.
pub unpack_bits-pack_bits :
    (vs : List ℕ) (w : ℕ)
    → All (Fits w) vs
    → w ≤ 32
    → unpack_bits (pack_bits vs w []) (length vs) w ≡ ok vs
unpack_bits-pack_bits vs w h hw = rw (pack_bits-block vs w [] h hw) (unpack_bits-block vs w h hw)
