-- ===== src/Codec/Packing.antt =====
-- Bit packing of src/search/codec.rs: `bit_width`, `pack_bits`, `unpack_bits`, `packed_len`.
-- An accumulator is a u64: what `<<` shifts out is dropped.
pub mod Number
pub mod Pack
pub mod Unpack
pub mod RoundTrip
use Prim.Native.Nat.{bit_or, bit_and}
use kevindb.Base.{
  ℕ, zero, suc, ◌+◌, ◌-◌, ◌*◌, ◌/◌, ◌%◌, ◌^◌, min, Option, none, some, Bool, List, [], ◌∷◌, ◌++◌,
  ltb, leb, ◌==◌, get_elem?, if◌then◌else◌,
}
use kevindb.Base.Result.{Result, ok, err, ◌>>=◌}
use kevindb.Codec.Types.{Bytes, u32_mod, u64_mod, Error, invalid_bit_width, truncated_block}

-- `leading_zeros` of a number of k bits
unfoldable pub leading_zeros : ℕ → ℕ → ℕ
leading_zeros zero n = 0
leading_zeros (suc k) n = if leb (2 ^ k) n then 0 else suc (leading_zeros k n)

unfoldable pub bit_width : ℕ → ℕ
bit_width max = if max == 0 then 0 else 32 - leading_zeros 32 max

-- `while bits >= 8`: a round takes eight bits off, so `bits` rounds are enough.
unfoldable pub drain : ℕ → ℕ → ℕ → Bytes → ℕ × ℕ × Bytes
drain zero accumulator bits out = (accumulator, bits, out)
drain (suc fuel) accumulator bits out =
    let more = drain fuel (accumulator / 256) (bits - 8) (out ++ (accumulator % 256 ∷ [])) in
    if leb 8 bits then more else (accumulator, bits, out)

-- The `for` loop of `pack_bits` and the write of the last bits behind it.
unfoldable pub pack_loop : List ℕ → ℕ → ℕ → ℕ → Bytes → Bytes
pack_loop [] width accumulator bits out =
    if ltb 0 bits then out ++ (accumulator % 256 ∷ []) else out
pack_loop (value ∷ values) width accumulator bits out =
    let accumulator' = bit_or accumulator (value * 2 ^ bits % u64_mod) in
    let (rest, left, out') = drain (bits + width) accumulator' (bits + width) out in
    pack_loop values width rest left out'

unfoldable pub pack_bits : List ℕ → ℕ → Bytes → Bytes
pack_bits values width out = if width == 0 then out else pack_loop values width 0 0 out

-- The variables of `unpack_bits`.
pub record Unpacker : Type 0 where
  pub accumulator : ℕ
  pub bits : ℕ
  pub offset : ℕ

abbrev take_bits : Unpacker → Option ℕ → Result Error Unpacker
take_bits u none = err truncated_block
take_bits u (some byte) = ok (record {
  accumulator = bit_or u.accumulator (byte * 2 ^ u.bits % u64_mod);
  bits = u.bits + 8;
  offset = u.offset + 1;
})

-- `while bits < width`: a round adds eight bits, so `width` rounds are enough.
unfoldable pub fill : ℕ → Bytes → ℕ → Unpacker → Result Error Unpacker
fill zero bytes width u = ok u
fill (suc fuel) bytes width u =
    let more = (do u' ← take_bits u (get_elem? bytes u.offset); fill fuel bytes width u') in
    if ltb u.bits width then more else ok u

abbrev pub mask : ℕ → ℕ
mask width = if width == 32 then u32_mod - 1 else 2 ^ width - 1

-- `while values.len() < count`, with the number of values still to be read.
unfoldable pub unpack_loop : ℕ → Bytes → ℕ → Unpacker → Result Error (List ℕ)
unpack_loop zero bytes width u = ok []
unpack_loop (suc count) bytes width u = do
  u' ← fill width bytes width u
  let value = bit_and u'.accumulator (mask width) % u32_mod
  rest ←
      unpack_loop count bytes width
        (record u' { accumulator = u'.accumulator / 2 ^ width; bits = u'.bits - width })
  ok (value ∷ rest)

-- `vec![0; count]`
abbrev pub zeros : ℕ → List ℕ
zeros zero = []
zeros (suc n) = 0 ∷ zeros n

unfoldable pub unpack_bits : Bytes → ℕ → ℕ → Result Error (List ℕ)
unpack_bits bytes count width =
    if ltb 32 width
    then err invalid_bit_width
    else if width == 0
    then ok (zeros count)
    else unpack_loop count bytes width (record { accumulator = 0; bits = 0; offset = 0 })

unfoldable pub packed_len : ℕ → ℕ → ℕ
packed_len count width = (min (count * width) (u64_mod - 1) + 7) / 8
