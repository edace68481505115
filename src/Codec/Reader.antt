-- ===== src/Codec/Reader.antt =====
-- `ByteReader` of src/search/codec.rs. A method is an action that returns its result and the
-- reader behind it; an error ends the decoding, so that no reader is left then.
pub mod Laws
use Prim.Native.Nat.{bit_or, bit_and}
use kevindb.Base.{
  ℕ, zero, suc, ◌+◌, ◌-◌, ◌*◌, ◌%◌, ◌^◌, ◌≡◌, Bool, true, false, ◌&&◌, Option, none, some, List, [],
  ◌∷◌, ◌++◌, ltb, leb, ◌==◌, length, get_elem?, slice, if◌then◌else◌,
}
use kevindb.Base.Result.{Result, ok, err}
use kevindb.Codec.Types.{
  Bytes, u32_mod, u64_mod, Error, truncated_index, truncated_byte, offset_overflow, invalid_magic,
  trailing_bytes, invalid_vint, SearchIndexRange,
}
use kevindb.Codec.Write.{from_le_bytes}

pub record ByteReader : Type 0 where
  pub bytes : Bytes
  pub offset : ℕ

abbrev pub Reader {ℓ} : Type ℓ → Type ℓ
Reader A = ByteReader → Result Error (A × ByteReader)

abbrev pub continue {ℓ κ} :
    {A : Type ℓ} {B : Type κ}
    → (A → Reader B)
    → Result Error (A × ByteReader)
    → Result Error (B × ByteReader)
continue f (ok (a, r)) = f a r
continue f (err e) = err e

-- The `?` operator.
infixl 5 ◌>>=◌ ◌>>◌
abbrev pub ◌>>=◌ {ℓ κ} : {A : Type ℓ} {B : Type κ} → Reader A → (A → Reader B) → Reader B
◌>>=◌ m f r = continue f (m r)

abbrev pub ◌>>◌ {ℓ} : {B : Type ℓ} → Reader (Unit {0}) → Reader B → Reader B
m >> k = m >>= λ _. k

abbrev pub pure {ℓ} : {A : Type ℓ} → A → Reader A
pure a r = ok (a, r)

-- A result that does not touch the reader, under `?`.
abbrev pub lift {ℓ} : {A : Type ℓ} → Result Error A → Reader A
lift (ok a) r = ok (a, r)
lift (err e) r = err e

-- `ByteReader::new`
abbrev pub new_reader : Bytes → ByteReader
new_reader bytes = record { bytes = bytes; offset = 0 }

unfoldable pub read_slice : ℕ → Reader Bytes
read_slice len r =
    let end = r.offset + len in
    if leb u64_mod end
    then err offset_overflow
    else if ltb (length r.bytes) end
    then err truncated_index
    else ok (slice r.offset end r.bytes, record r { offset = end })

abbrev take_byte : Option ℕ → Reader ℕ
take_byte (some byte) r = ok (byte, record r { offset = r.offset + 1 })
take_byte none r = err truncated_byte

unfoldable pub read_u8 : Reader ℕ
read_u8 r = take_byte (get_elem? r.bytes r.offset) r

unfoldable pub read_u32 : Reader ℕ
read_u32 = do bytes ← read_slice 4; pure (from_le_bytes bytes)

unfoldable pub read_u64 : Reader ℕ
read_u64 = do bytes ← read_slice 8; pure (from_le_bytes bytes)

unfoldable pub read_vec : Reader Bytes
read_vec = do len ← read_u32; read_slice len

unfoldable pub read_range : Reader SearchIndexRange
read_range = do offset ← read_u64; len ← read_u64; pure (record { offset = offset; len = len })

-- The loop of `read_vint`. The shift starts at 0 and grows by 7, so that 32 rounds suffice: with
-- no round left the shift is past 32, where the code has bailed out already.
unfoldable pub read_vint_loop : ℕ → ℕ → ℕ → Reader ℕ
read_vint_loop zero value shift = lift (err invalid_vint)
read_vint_loop (suc fuel) value shift = do
  byte ← read_u8
  let value' = bit_or value (bit_and byte 0x7f * 2 ^ shift % u32_mod)
  let more = read_vint_loop fuel value' (shift + 7)
  if bit_and byte 0x80 == 0
      then pure value'
      else if leb 32 (shift + 7)
      then lift (err invalid_vint)
      else more

unfoldable pub read_vint : Reader ℕ
read_vint = read_vint_loop 32 0 0

-- `actual != expected` on byte slices
abbrev pub bytes_eq : Bytes → Bytes → Bool
bytes_eq [] [] = true
bytes_eq [] (b ∷ bs) = false
bytes_eq (a ∷ as') [] = false
bytes_eq (a ∷ as') (b ∷ bs) = a == b && bytes_eq as' bs

unfoldable pub expect_bytes : Bytes → Reader (Unit {0})
expect_bytes expected = do
  actual ← read_slice (length expected)
  lift (if bytes_eq actual expected then ok tt else err invalid_magic)

unfoldable pub expect_done : Reader (Unit {0})
expect_done r = if r.offset == length r.bytes then ok (tt, r) else err trailing_bytes

-- `(0..count).map(read).collect::<Result<Vec<_>>>()`
unfoldable pub read_times : {A : Type 0} → Reader A → ℕ → Reader (List A)
read_times read zero = pure []
read_times read (suc count) = do x ← read; xs ← read_times read count; pure (x ∷ xs)

-- The outcome of a decoder that owns its reader.
abbrev pub result {ℓ} : {A B : Type ℓ} → Result Error (A × B) → Result Error A
result (ok (a, b)) = ok a
result (err e) = err e
