-- ===== src/Codec/Types.antt =====
-- The data of a search index: the structs of src/search/codec.rs and, of src/search/mod.rs,
-- `RowGroup`, `TermInfo` and `SearchIndex`. A `Vec<u8>` or `&[u8]` is a list of numbers.
-- A `usize` has 64 bits.
use kevindb.Base.{ℕ, ◌+◌, ◌-◌, ◌^◌, ◌<◌, List, [], ◌∷◌, Bool, min, ◌==◌}

abbrev pub Bytes : Type 0
Bytes = List ℕ

abbrev pub u32_mod : ℕ
u32_mod = 2 ^ 32

abbrev pub u64_mod : ℕ
u64_mod = 2 ^ 64

abbrev pub IsByte : ℕ → Type 0
IsByte b = b < 256

abbrev pub IsU32 : ℕ → Type 0
IsU32 v = v < 2 ^ 32

abbrev pub IsU64 : ℕ → Type 0
IsU64 v = v < 2 ^ 64

-- One constructor for each message that the codec raises.
pub data Error : Type 0 where
  truncated_index truncated_byte offset_overflow invalid_magic trailing_bytes : Error
  invalid_vint invalid_bit_width truncated_block : Error
  does_not_fit_u32 directory_offset_overflow truncated_directory directory_len_mismatch : Error
  term_info_len_overflow term_info_len_mismatch : Error
  range_overflow truncated_range invalid_fst : Error

-- `KDBFTS3\0`
abbrev pub magic : Bytes
magic = b'K' ∷ b'D' ∷ b'B' ∷ b'F' ∷ b'T' ∷ b'S' ∷ b'3' ∷ 0 ∷ []

abbrev pub search_index_header_len : ℕ
search_index_header_len = 24

abbrev pub block_len : ℕ
block_len = 128

pub record SearchIndexHeader : Type 0 where
  pub row_count : ℕ
  pub term_key_group_count : ℕ
  pub term_value_group_count : ℕ
  pub directory_len : ℕ

pub record SearchIndexRange : Type 0 where
  pub offset : ℕ
  pub len : ℕ

-- `SearchIndexRange::default()`
abbrev pub no_range : SearchIndexRange
no_range = record { offset = 0; len = 0 }

-- `is_empty`
pub is_empty : SearchIndexRange → Bool
is_empty r = r.len == 0

pub record RowRange : Type 0 where
  pub start : ℕ
  pub end : ℕ

-- `as_range`, with the end saturated at `u64::MAX`.
pub as_range : SearchIndexRange → RowRange
as_range r = record { start = r.offset; end = min (r.offset + r.len) (u64_mod - 1) }

pub record SearchIndexGroupDirectory : Type 0 where
  pub min_term : Bytes
  pub max_term : Bytes
  pub term_info_count : ℕ
  pub fst : SearchIndexRange
  pub term_infos : SearchIndexRange
  pub postings : SearchIndexRange
  pub positions : SearchIndexRange

pub record SearchIndexDirectory : Type 0 where
  pub row_count : ℕ
  pub term_key_groups : List SearchIndexGroupDirectory
  pub term_value_groups : List SearchIndexGroupDirectory

pub record SearchIndexTermInfo : Type 0 where
  pub doc_count : ℕ
  pub postings_offset : ℕ
  pub postings_len : ℕ
  pub positions_offset : ℕ
  pub positions_len : ℕ

pub record TermInfo : Type 0 where
  pub doc_count : ℕ
  pub postings_offset : ℕ
  pub postings_len : ℕ
  pub positions_offset : ℕ
  pub positions_len : ℕ

pub record RowGroup : Type 0 where
  pub min_term : Bytes
  pub max_term : Bytes
  pub fst_bytes : Bytes
  pub term_infos : List TermInfo
  pub postings : Bytes
  pub positions : Bytes

pub record SearchIndex : Type 0 where
  pub row_count : ℕ
  pub term_key_groups : List RowGroup
  pub term_value_groups : List RowGroup
