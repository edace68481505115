-- ===== src/Codec/U32List/Encode.antt =====
-- The bytes of an encoded list as one expression over the differences.
use kevindb.Base.{
  ℕ, zero, suc, ◌+◌, ◌-◌, ◌*◌, ◌^◌, ◌≤◌, ◌<◌, ◌≡◌, sym, ◌∙◌, arith, List, [], ◌∷◌, ◌++◌,
  append_assoc, append-nil, All, take, drop, drop-drop, All-take, All-drop,
}
use kevindb.Codec.Types.{Bytes, IsU32, block_len}
use kevindb.Codec.Write.{put_vint}
use kevindb.Codec.Write.Laws.{vint_bytes, put_vint-vint_bytes}
use kevindb.Codec.Packing.{bit_width}
use kevindb.Codec.Packing.Number.{Fits}
use kevindb.Codec.Packing.Pack.{bit_width_fits}
use kevindb.Codec.Packing.RoundTrip.{block, pack_bits-block}
use kevindb.Codec.U32List.{maximum, encode_blocks, encode_tail}

abbrev pub width_of : List ℕ → ℕ
width_of ds = bit_width (maximum ds)

abbrev pub blocks_bytes : ℕ → List ℕ → Bytes
blocks_bytes zero ds = []
blocks_bytes (suc k) ds =
    width_of (take block_len ds)
    ∷ (block (take block_len ds) (width_of (take block_len ds))
        ++ blocks_bytes k (drop block_len ds))

abbrev pub tail_bytes : List ℕ → Bytes
tail_bytes [] = []
tail_bytes (d ∷ ds) = vint_bytes d d ++ tail_bytes ds

maximum_below : (n : ℕ) (ds : List ℕ) → 0 < n → All (λ d. d < n) ds → maximum ds < n
maximum_below n [] h k = h
maximum_below n (d ∷ ds) h k = omega (arith, k.0, maximum_below n ds h k.1)

below_maximum : (n : ℕ) (ds : List ℕ) → maximum ds < n → All (λ d. d < n) ds
below_maximum n [] h = tt
below_maximum n (d ∷ ds) h = (omega arith, below_maximum n ds (omega arith))

-- A block's width holds each of its values.
pub width_of-Fits : (ds : List ℕ) → All IsU32 ds → (width_of ds ≤ 32) × All (Fits (width_of ds)) ds
width_of-Fits ds h =
    let (small, fits) = bit_width_fits (maximum ds) (maximum_below (2 ^ 32) ds (omega arith) h) in
    (small, below_maximum (2 ^ width_of ds) ds fits)

pub encode_tail-tail_bytes : (ds : List ℕ) (out : Bytes) → encode_tail ds out ≡ out ++ tail_bytes ds
unfolding encode_tail
encode_tail-tail_bytes [] out = sym (append-nil out)
encode_tail-tail_bytes (d ∷ ds) out =
    encode_tail-tail_bytes ds (put_vint out d)
    ∙ rw (put_vint-vint_bytes out d) (append_assoc out (vint_bytes d d) (tail_bytes ds))

pub encode_blocks-blocks_bytes :
    (k i : ℕ) (ds : List ℕ) (out : Bytes)
    → All IsU32 ds
    → encode_blocks k i ds out ≡ out ++ blocks_bytes k (drop (i * block_len) ds)
unfolding encode_blocks
encode_blocks-blocks_bytes zero i ds out h = sym (append-nil out)
encode_blocks-blocks_bytes (suc k) i ds out h =
    let n : (i + 1) * block_len - i * block_len ≡ block_len = omega arith in
    let m : (i + 1) * block_len ≡ i * block_len + block_len = omega arith in
    let here = take block_len (drop (i * block_len) ds) in
    let (small, fits) =
      width_of-Fits here (
        All-take IsU32 block_len (drop (i * block_len) ds) (All-drop IsU32 (i * block_len) ds h)) in
    rw n (
      encode_blocks-blocks_bytes k (i + 1) ds _ h
      ∙ rw (
        m,
        ← drop-drop (i * block_len) block_len ds,
        pack_bits-block here (width_of here) (out ++ (width_of here ∷ [])) fits small,
        append_assoc (out ++ (width_of here ∷ [])),
        append_assoc out,
      ))
