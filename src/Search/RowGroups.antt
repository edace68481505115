-- ===== src/Search/RowGroups.antt =====
-- `build_row_groups`, `estimated_term_bytes` and `encode_row_group` of src/search/mod.rs: a sorted
-- list of terms is cut into groups. Of the fst crate, `Builder`, `memory`, `insert_key` and
-- `into_inner` are `MapBuilder` and its methods, `none` for an error. A `usize` has 64 bits.
pub mod Partition
pub mod Bounds
use kevindb.Base.{
  ℕ, ◌+◌, ◌-◌, Bool, true, false, ◌&&◌, ◌||◌, not, Option, none, some, List, [], ◌∷◌, ◌++◌, min,
  ltb, length, if◌then◌else◌,
}
use kevindb.Base.Result.{Result, ok, err, ◌>>=◌}
use kevindb.Codec.Types.{Bytes, Error, invalid_fst, u64_mod, TermInfo, RowGroup}
use kevindb.Codec.Write.{checked_u32}
use kevindb.Codec.U32List.{encode_u32_list}
use kevindb.Codec.Positions.{encode_positions}

pub record TermEntry : Type 0 where
  pub term : Bytes
  pub rows : List ℕ
  pub positions_by_row : List (ℕ × List ℕ)

abbrev row_group_postings_bytes : ℕ
row_group_postings_bytes = 33554432

abbrev row_group_raw_term_bytes : ℕ
row_group_raw_term_bytes = 67108864

abbrev saturating_usize_add : ℕ → ℕ → ℕ
saturating_usize_add a b = min (a + b) (u64_mod - 1)

unfoldable pub estimated_term_bytes : TermEntry → Bool → ℕ
estimated_term_bytes entry include_positions =
    let postings = length (encode_u32_list entry.rows) in
    if not include_positions
    then postings
    else postings + length (encode_positions entry.rows entry.positions_by_row)

abbrev pub first_term : List TermEntry → Bytes
first_term [] = []
first_term (entry ∷ entries) = entry.term

abbrev pub last_term : List TermEntry → Bytes
last_term [] = []
last_term (entry ∷ []) = entry.term
last_term (entry ∷ next ∷ entries) = last_term (next ∷ entries)

abbrev pub is_empty_entries : List TermEntry → Bool
is_empty_entries [] = true
is_empty_entries (entry ∷ entries) = false

module _ {Builder : Type 0} (memory : Builder) (insert_key : Bytes → ℕ → Builder → Option Builder)
    (into_inner : Builder → Option Bytes) where
  -- The vectors that `encode_row_group` fills.
  pub record GroupState : Type 0 where
    pub fst : Builder
    pub term_infos : List TermInfo
    pub postings : Bytes
    pub positions : Bytes

  abbrev pub or_invalid {ℓ} : {A : Type ℓ} → Option A → Result Error A
  or_invalid none = err invalid_fst
  or_invalid (some a) = ok a

  -- The bytes of the positions, none where they are not included.
  abbrev entry_positions : TermEntry → Bool → Bytes
  entry_positions entry include_positions =
      if include_positions then encode_positions entry.rows entry.positions_by_row else []

  -- One round of the loop.
  unfoldable pub encode_entry : Bool → ℕ → TermEntry → GroupState → Result Error GroupState
  encode_entry include_positions ordinal entry state = do
    fst ← or_invalid (insert_key entry.term ordinal state.fst)
    postings_offset ← checked_u32 (length state.postings)
    postings_len ← checked_u32 (length (encode_u32_list entry.rows))
    positions_offset ← checked_u32 (length state.positions)
    positions_len ← checked_u32 (length (entry_positions entry include_positions))
    doc_count ← checked_u32 (length entry.rows)
    ok (record {
      fst = fst;
      term_infos =
          state.term_infos
          ++ (record {
            doc_count = doc_count;
            postings_offset = postings_offset;
            postings_len = postings_len;
            positions_offset = positions_offset;
            positions_len = positions_len;
          }
              ∷ []);
      postings = state.postings ++ encode_u32_list entry.rows;
      positions = state.positions ++ entry_positions entry include_positions;
    })

  unfoldable pub encode_entries : Bool → ℕ → List TermEntry → GroupState → Result Error GroupState
  encode_entries include_positions ordinal [] state = ok state
  encode_entries include_positions ordinal (entry ∷ entries) state = do
    state1 ← encode_entry include_positions ordinal entry state
    encode_entries include_positions (ordinal + 1) entries state1

  abbrev pub empty_state : GroupState
  empty_state = record { fst = memory; term_infos = []; postings = []; positions = [] }

  abbrev pub row_group : List TermEntry → GroupState → Bytes → RowGroup
  row_group entries state fst_bytes = record {
    min_term = first_term entries;
    max_term = last_term entries;
    fst_bytes = fst_bytes;
    term_infos = state.term_infos;
    postings = state.postings;
    positions = state.positions;
  }

  unfoldable pub encode_row_group : List TermEntry → Bool → Result Error RowGroup
  encode_row_group entries include_positions = do
    state ← encode_entries include_positions 0 entries empty_state
    fst_bytes ← or_invalid (into_inner state.fst)
    ok (row_group entries state fst_bytes)

  abbrev pub is_full : ℕ → ℕ → ℕ → ℕ → Bool
  is_full current_postings postings current_raw raw =
      ltb row_group_postings_bytes (saturating_usize_add current_postings postings)
      || ltb row_group_raw_term_bytes (saturating_usize_add current_raw raw)

  -- Behind the loop: the group that is still open.
  abbrev pub finish_groups : Bool → List TermEntry → List RowGroup → Result Error (List RowGroup)
  finish_groups include_positions [] groups = ok groups
  finish_groups include_positions (entry ∷ current) groups = do
    group ← encode_row_group (entry ∷ current) include_positions
    ok (groups ++ (group ∷ []))

  -- The loop, with its four variables.
  unfoldable pub group_entries :
      Bool → List TermEntry → List TermEntry → ℕ → ℕ → List RowGroup → Result Error (List RowGroup)
  group_entries include_positions [] current postings raw groups =
      finish_groups include_positions current groups
  group_entries include_positions (entry ∷ entries) current postings raw groups =
      let postings_bytes = estimated_term_bytes entry include_positions in
      let raw_term_bytes = length entry.term in
      let flush = (do
        group ← encode_row_group current include_positions
        group_entries include_positions entries (entry ∷ []) (saturating_usize_add 0 postings_bytes)
            (saturating_usize_add 0 raw_term_bytes) (groups ++ (group ∷ []))) in
      let continue =
        group_entries include_positions entries (current ++ (entry ∷ []))
          (saturating_usize_add postings postings_bytes) (saturating_usize_add raw raw_term_bytes)
          groups in
      if not (is_empty_entries current) && is_full postings postings_bytes raw raw_term_bytes
      then flush
      else continue

  unfoldable pub build_row_groups : List TermEntry → Bool → Result Error (List RowGroup)
  build_row_groups entries include_positions = group_entries include_positions entries [] 0 0 []
