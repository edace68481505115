-- ===== src/Codec/U32List.antt =====
-- Lists of u32 as differences in packed blocks with a tail of vints: `encode_u32_list`,
-- `ByteReader::read_u32_list` and `decode_u32_list` of src/search/codec.rs.
pub mod Encode
pub mod RoundTrip
pub mod Safety
use kevindb.Base.{
  ℕ, zero, suc, ◌+◌, ◌-◌, ◌*◌, ◌/◌, ◌%◌, max, min, List, [], ◌∷◌, ◌++◌, length, drop, slice,
}
use kevindb.Base.Result.{Result, ok, err}
use kevindb.Codec.Types.{Bytes, Error, block_len, u32_mod}
use kevindb.Codec.Write.{put_vint}
use kevindb.Codec.Packing.{bit_width, pack_bits, unpack_bits, packed_len}
use kevindb.Codec.Reader.{
  Reader, continue, ◌>>=◌, ◌>>◌, pure, lift, new_reader, read_u8, read_slice, read_vint,
  expect_done, result,
}

-- `deltas.push(value.saturating_sub(previous))`
abbrev pub deltas_from : ℕ → List ℕ → List ℕ
deltas_from previous [] = []
deltas_from previous (value ∷ values) = (value - previous) ∷ deltas_from value values

-- `block.iter().max().unwrap_or(&0)`
abbrev pub maximum : List ℕ → ℕ
maximum [] = 0
maximum (x ∷ xs) = max x (maximum xs)

-- The loop over the full blocks, with the number of blocks left and the index of the next one.
unfoldable pub encode_blocks : ℕ → ℕ → List ℕ → Bytes → Bytes
encode_blocks zero block_index deltas out = out
encode_blocks (suc left) block_index deltas out =
    let block = slice (block_index * block_len) ((block_index + 1) * block_len) deltas in
    let width = bit_width (maximum block) in
    encode_blocks left (block_index + 1) deltas (pack_bits block width (out ++ (width ∷ [])))

unfoldable pub encode_tail : List ℕ → Bytes → Bytes
encode_tail [] out = out
encode_tail (delta ∷ deltas) out = encode_tail deltas (put_vint out delta)

unfoldable pub encode_u32_list : List ℕ → Bytes
encode_u32_list values =
    let deltas = deltas_from 0 values in
    let full_blocks = length deltas / block_len in
    encode_tail (drop (full_blocks * block_len) deltas) (encode_blocks full_blocks 0 deltas [])

-- `previous` and `values` of the decoder.
abbrev pub Decoded : Type 0
Decoded = ℕ × List ℕ

abbrev pub saturating_add : ℕ → ℕ → ℕ
saturating_add a b = min (a + b) (u32_mod - 1)

abbrev pub push_delta : Decoded → ℕ → Decoded
push_delta (previous, values) delta =
    let next = saturating_add previous delta in (next, values ++ (next ∷ []))

abbrev pub push_deltas : List ℕ → Decoded → Decoded
push_deltas [] d = d
push_deltas (delta ∷ deltas) d = push_deltas deltas (push_delta d delta)

unfoldable pub read_blocks : ℕ → Decoded → Reader Decoded
read_blocks zero d = pure d
read_blocks (suc left) d = do
  width ← read_u8
  packed ← read_slice (packed_len block_len width)
  deltas ← lift (unpack_bits packed block_len width)
  read_blocks left (push_deltas deltas d)

unfoldable pub read_tail : ℕ → Decoded → Reader Decoded
read_tail zero d = pure d
read_tail (suc left) d = do delta ← read_vint; read_tail left (push_delta d delta)

unfoldable pub read_u32_list : ℕ → Reader (List ℕ)
read_u32_list count = do
  d ← read_blocks (count / block_len) (0, [])
  d' ← read_tail (count % block_len) d
  pure d'.1

unfoldable pub decode_u32_list : Bytes → ℕ → Result Error (List ℕ)
decode_u32_list bytes count =
    result ((do values ← read_u32_list count; expect_done; pure values) (new_reader bytes))
