-- ===== src/Tests/RowGroups.antt =====
-- A list of two terms, with a map builder that keeps the keys one after the other.
use kevindb.Base.{ℕ, ◌≡◌, refl, false, Option, some, List, [], ◌∷◌, ◌++◌}
use kevindb.Base.Result.{ok}
use kevindb.Codec.Types.{Bytes, RowGroup}
use kevindb.Codec.Write.{checked_u32, put_vint, put_vint_loop}
use kevindb.Codec.U32List.{encode_u32_list, encode_tail, encode_blocks}
use kevindb.Search.RowGroups.{
  TermEntry, build_row_groups, group_entries, encode_row_group, encode_entries, encode_entry,
  estimated_term_bytes,
}
use kevindb.Search.RowGroups.Partition.{concat, Parts, build_row_groups-Parts}
use kevindb.Search.RowGroups.Bounds.{Encloses, build_row_groups-Encloses}

abbrev add_key : Bytes → ℕ → Bytes → Option Bytes
add_key key ordinal builder = some (builder ++ key)

abbrev finish : Bytes → Option Bytes
finish builder = some builder

abbrev two_entries : List TermEntry
two_entries =
    record { term = 97 ∷ []; rows = 0 ∷ 2 ∷ []; positions_by_row = [] }
    ∷ record { term = 98 ∷ []; rows = 1 ∷ []; positions_by_row = [] }
    ∷ []

abbrev one_group : List RowGroup
one_group =
    record {
      min_term = 97 ∷ [];
      max_term = 98 ∷ [];
      fst_bytes = 97 ∷ 98 ∷ [];
      term_infos =
          record {
            doc_count = 2;
            postings_offset = 0;
            postings_len = 2;
            positions_offset = 0;
            positions_len = 0;
          }
          ∷ record {
            doc_count = 1;
            postings_offset = 2;
            postings_len = 1;
            positions_offset = 0;
            positions_len = 0;
          }
          ∷ [];
      postings = 0 ∷ 2 ∷ 1 ∷ [];
      positions = [];
    }
    ∷ []

built : build_row_groups [] add_key finish two_entries false ≡ ok one_group
unfolding build_row_groups group_entries encode_row_group encode_entries encode_entry
    estimated_term_bytes checked_u32 encode_u32_list encode_tail encode_blocks put_vint
    put_vint_loop
built = refl

build_row_groups-Parts_example : Parts two_entries one_group
build_row_groups-Parts_example =
    build_row_groups-Parts [] add_key finish two_entries false one_group built

build_row_groups-Encloses_example :
    (parts : List (List TermEntry)) × ((concat parts ≡ two_entries) × Encloses parts one_group)
build_row_groups-Encloses_example =
    build_row_groups-Encloses [] add_key finish two_entries false one_group ((refl, tt), (tt, tt))
      built
