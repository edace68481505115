-- ===== src/Codec/Directory.antt =====
-- The header and the directory of a search index file: `EncodedGroup`, `next_range`,
-- `encode_directory`, `read_group_directories` and the decoders of src/search/codec.rs.
pub mod Layout
pub mod RoundTrip
use kevindb.Base.{ℕ, ◌+◌, ◌≡◌, List, [], ◌∷◌, ◌++◌, ltb, leb, ◌==◌, not, length, if◌then◌else◌}
use kevindb.Base.Result.{Result, ok, err, try_map, guard}
use kevindb.Base.Result
use kevindb.Codec.Types.{
  Bytes, u64_mod, Error, range_overflow, directory_len_mismatch, magic, no_range, RowGroup,
  SearchIndexHeader, SearchIndexRange, SearchIndexGroupDirectory, SearchIndexDirectory,
}
use kevindb.Codec.Write.{checked_u32, put_u32, put_bytes, put_range}
use kevindb.Codec.Reader.{
  Reader, continue, ◌>>=◌, ◌>>◌, pure, new_reader, read_u32, read_vec, read_range, expect_bytes,
  expect_done, read_times, result,
}
use kevindb.Codec.TermInfos.{encode_term_infos}

pub record EncodedGroup : Type 0 where
  pub directory : SearchIndexGroupDirectory
  pub fst_bytes : Bytes
  pub term_infos : Bytes
  pub postings : Bytes
  pub positions : Bytes

-- `EncodedGroup::new` past its check, with the ranges still at their default.
abbrev pub encoded_group : RowGroup → ℕ → EncodedGroup
encoded_group group count = record {
  directory = record {
    min_term = group.min_term;
    max_term = group.max_term;
    term_info_count = count;
    fst = no_range;
    term_infos = no_range;
    postings = no_range;
    positions = no_range;
  };
  fst_bytes = group.fst_bytes;
  term_infos = encode_term_infos group.term_infos;
  postings = group.postings;
  positions = group.positions;
}

unfoldable pub new_group : RowGroup → Result Error EncodedGroup
new_group group =
    Result.◌>>=◌ (checked_u32 (length group.term_infos)) (λ count. ok (encoded_group group count))

unfoldable pub prepare_groups : List RowGroup → Result Error (List EncodedGroup)
prepare_groups groups = try_map new_group groups

abbrev pub directory_entry_len : EncodedGroup → ℕ
directory_entry_len group =
    4 + length group.directory.min_term + 4 + length group.directory.max_term + 4 + 64

abbrev pub sum_entry_lens : List EncodedGroup → ℕ
sum_entry_lens [] = 0
sum_entry_lens (group ∷ groups) = directory_entry_len group + sum_entry_lens groups

-- The groups of keys, then those of values: `key_groups.iter().chain(value_groups.iter())`.
unfoldable pub encoded_directory_len : List EncodedGroup → List EncodedGroup → ℕ
encoded_directory_len key_groups value_groups = sum_entry_lens (key_groups ++ value_groups)

-- The range, and the offset behind it.
unfoldable pub next_range : ℕ → ℕ → Result Error (SearchIndexRange × ℕ)
next_range offset len =
    if leb u64_mod (offset + len)
    then err range_overflow
    else ok (record { offset = offset; len = len }, offset + len)

-- The body of the loop that lays the groups out.
unfoldable pub place_group : EncodedGroup → ℕ → Result Error (EncodedGroup × ℕ)
place_group group offset = Result.◌>>=◌ (next_range offset (length group.fst_bytes)) λ (fst, o1).
    Result.◌>>=◌ (next_range o1 (length group.term_infos)) λ (term_infos, o2).
      Result.◌>>=◌ (next_range o2 (length group.postings)) λ (postings, o3).
        Result.◌>>=◌ (next_range o3 (length group.positions)) λ (positions, o4). ok (
          record group {
            directory = record (group.directory) {
              fst = fst;
              term_infos = term_infos;
              postings = postings;
              positions = positions;
            };
          },
          o4,
        )

unfoldable pub place_groups : List EncodedGroup → ℕ → Result Error (List EncodedGroup × ℕ)
place_groups [] offset = ok ([], offset)
place_groups (group ∷ groups) offset =
    Result.◌>>=◌ (place_group group offset)
      λ (placed, o1). Result.◌>>=◌ (place_groups groups o1) λ (rest, o2). ok (placed ∷ rest, o2)

-- One round of `encode_directory`.
unfoldable pub put_entry : Bytes → SearchIndexGroupDirectory → Result Error Bytes
put_entry out entry = Result.◌>>=◌ (put_bytes out entry.min_term) λ out1.
    Result.◌>>=◌ (put_bytes out1 entry.max_term) λ out2.
      let out3 = put_u32 out2 entry.term_info_count in
      let out4 = put_range (put_range out3 entry.fst) entry.term_infos in
      ok (put_range (put_range out4 entry.postings) entry.positions)

unfoldable pub put_entries : Bytes → List EncodedGroup → Result Error Bytes
put_entries out [] = ok out
put_entries out (group ∷ groups) =
    Result.◌>>=◌ (put_entry out group.directory) λ out'. put_entries out' groups

unfoldable pub encode_directory : Bytes → List EncodedGroup → List EncodedGroup → Result Error Bytes
encode_directory out key_groups value_groups = put_entries out (key_groups ++ value_groups)

unfoldable pub read_entry : Reader SearchIndexGroupDirectory
read_entry = do
  min_term ← read_vec
  max_term ← read_vec
  term_info_count ← read_u32
  fst ← read_range
  term_infos ← read_range
  postings ← read_range
  positions ← read_range
  pure (record {
    min_term = min_term;
    max_term = max_term;
    term_info_count = term_info_count;
    fst = fst;
    term_infos = term_infos;
    postings = postings;
    positions = positions;
  })

unfoldable pub read_group_directories : ℕ → Reader (List SearchIndexGroupDirectory)
read_group_directories group_count = read_times read_entry group_count

unfoldable pub read_header : Reader SearchIndexHeader
read_header = do
  expect_bytes magic
  row_count ← read_u32
  term_key_group_count ← read_u32
  term_value_group_count ← read_u32
  directory_len ← read_u32
  pure (record {
    row_count = row_count;
    term_key_group_count = term_key_group_count;
    term_value_group_count = term_value_group_count;
    directory_len = directory_len;
  })

unfoldable pub decode_search_index_header : Bytes → Result Error SearchIndexHeader
decode_search_index_header bytes = result (read_header (new_reader bytes))

unfoldable pub decode_search_index_directory :
    SearchIndexHeader → Bytes → Result Error SearchIndexDirectory
decode_search_index_directory header bytes =
    if not (length bytes == header.directory_len)
    then err directory_len_mismatch
    else result (
        (do
          term_key_groups ← read_group_directories header.term_key_group_count
          term_value_groups ← read_group_directories header.term_value_group_count
          expect_done
          pure (record {
            row_count = header.row_count;
            term_key_groups = term_key_groups;
            term_value_groups = term_value_groups;
          }))
          (new_reader bytes))
