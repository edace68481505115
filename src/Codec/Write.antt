-- ===== src/Codec/Write.antt =====
-- The writers of src/search/codec.rs: `put_vint` to `put_range` and `checked_u32`.
-- Each takes the bytes written so far, Rust's `out`, and returns them extended.
pub mod Laws
use Prim.Native.Nat.{bit_or}
use kevindb.Base.{
  ℕ, zero, suc, ◌+◌, ◌*◌, ◌/◌, ◌%◌, ◌<◌, ◌≡◌, true, false, List, [], ◌∷◌, ◌++◌, ltb, leb, length,
  if◌then◌else◌,
}
use kevindb.Base.Result.{Result, ok, err, ◌>>=◌}
use kevindb.Codec.Types.{Bytes, u32_mod, Error, does_not_fit_u32, SearchIndexRange}

-- `u32::try_from(value)` at a usize
unfoldable pub checked_u32 : ℕ → Result Error ℕ
checked_u32 value = if ltb value u32_mod then ok value else err does_not_fit_u32

-- `to_le_bytes` of a word of n bytes
abbrev pub to_le_bytes : ℕ → ℕ → Bytes
to_le_bytes zero value = []
to_le_bytes (suc n) value = value % 256 ∷ to_le_bytes n (value / 256)

abbrev pub from_le_bytes : Bytes → ℕ
from_le_bytes [] = 0
from_le_bytes (b ∷ bs) = b + 256 * from_le_bytes bs

-- `while value >= 0x80`; the value falls in each round, so that many rounds are enough.
unfoldable pub put_vint_loop : ℕ → Bytes → ℕ → Bytes
put_vint_loop zero out value = out ++ (value % 256 ∷ [])
put_vint_loop (suc fuel) out value =
    let more = put_vint_loop fuel (out ++ (bit_or (value % 256) 0x80 ∷ [])) (value / 128) in
    if leb 0x80 value then more else out ++ (value % 256 ∷ [])

unfoldable pub put_vint : Bytes → ℕ → Bytes
put_vint out value = put_vint_loop value out value

unfoldable pub put_u32 : Bytes → ℕ → Bytes
put_u32 out value = out ++ to_le_bytes 4 value

unfoldable pub put_u64 : Bytes → ℕ → Bytes
put_u64 out value = out ++ to_le_bytes 8 value

unfoldable pub put_bytes : Bytes → Bytes → Result Error Bytes
unfolding put_u32
put_bytes out bytes = do len ← checked_u32 (length bytes); ok (put_u32 out len ++ bytes)

unfoldable pub put_range : Bytes → SearchIndexRange → Bytes
put_range out range = put_u64 (put_u64 out range.offset) range.len
