-- ===== src/Codec/Index.antt =====
-- The whole file: `encode_search_index`, `decode_search_index` and `decode_full_groups` of
-- src/search/codec.rs. `valid_fst` stands for the test of the fst crate, `Map::new(bytes).is_ok()`.
pub mod Shape
pub mod RoundTrip
use kevindb.Base.{ℕ, ◌+◌, ◌≡◌, Bool, List, [], ◌∷◌, ◌++◌, ltb, leb, length, slice, if◌then◌else◌}
use kevindb.Base.Result.{Result, ok, err, ◌>>=◌, ◌>>◌, guard, try_map}
use kevindb.Codec.Types.{
  Bytes, u64_mod, Error, directory_offset_overflow, truncated_directory, range_overflow,
  truncated_range, invalid_fst, magic, search_index_header_len, RowGroup, SearchIndex,
  SearchIndexRange, SearchIndexGroupDirectory,
}
use kevindb.Codec.Write.{checked_u32, put_u32}
use kevindb.Codec.TermInfos.{decode_term_infos}
use kevindb.Codec.Directory.{
  EncodedGroup, prepare_groups, encoded_directory_len, place_groups, encode_directory,
  decode_search_index_header, decode_search_index_directory,
}

-- The last loop of the encoder.
unfoldable pub put_bodies : Bytes → List EncodedGroup → Bytes
put_bodies out [] = out
put_bodies out (group ∷ groups) =
    put_bodies
      ((((out ++ group.fst_bytes) ++ group.term_infos) ++ group.postings) ++ group.positions) groups

unfoldable pub encode_search_index : SearchIndex → Result Error Bytes
encode_search_index index = do
  key_groups ← prepare_groups index.term_key_groups
  value_groups ← prepare_groups index.term_value_groups
  directory_len ← checked_u32 (encoded_directory_len key_groups value_groups)
  (keys, o1) ← place_groups key_groups (search_index_header_len + directory_len)
  (values, o2) ← place_groups value_groups o1
  key_count ← checked_u32 (length keys)
  value_count ← checked_u32 (length values)
  let out = put_u32 (put_u32 (put_u32 magic index.row_count) key_count) value_count
  out' ← encode_directory (put_u32 out directory_len) keys values
  ok (put_bodies out' (keys ++ values))

unfoldable pub slice_range : Bytes → SearchIndexRange → Result Error Bytes
slice_range bytes range = do
  guard (ltb (range.offset + range.len) u64_mod) range_overflow
  guard (leb (range.offset + range.len) (length bytes)) truncated_range
  ok (slice range.offset (range.offset + range.len) bytes)

module _ (valid_fst : Bytes → Bool) where
  unfoldable pub decode_loaded_group :
      SearchIndexGroupDirectory → Bytes → Bytes → Bytes → Bytes → Result Error RowGroup
  decode_loaded_group directory fst_bytes term_info_bytes postings positions = do
    guard (valid_fst fst_bytes) invalid_fst
    term_infos ← decode_term_infos term_info_bytes directory.term_info_count
    ok (record {
      min_term = directory.min_term;
      max_term = directory.max_term;
      fst_bytes = fst_bytes;
      term_infos = term_infos;
      postings = postings;
      positions = positions;
    })

  unfoldable pub decode_full_group : Bytes → SearchIndexGroupDirectory → Result Error RowGroup
  decode_full_group bytes group = do
    fst ← slice_range bytes group.fst
    term_infos ← slice_range bytes group.term_infos
    postings ← slice_range bytes group.postings
    positions ← slice_range bytes group.positions
    decode_loaded_group group fst term_infos postings positions

  unfoldable pub decode_full_groups :
      Bytes → List SearchIndexGroupDirectory → Result Error (List RowGroup)
  decode_full_groups bytes groups = try_map (decode_full_group bytes) groups

  unfoldable pub decode_search_index : Bytes → Result Error SearchIndex
  decode_search_index bytes = do
    header ← decode_search_index_header bytes
    let directory_end = search_index_header_len + header.directory_len
    guard (ltb directory_end u64_mod) directory_offset_overflow
    guard (leb directory_end (length bytes)) truncated_directory
    directory ←
        decode_search_index_directory header (slice search_index_header_len directory_end bytes)
    term_key_groups ← decode_full_groups bytes directory.term_key_groups
    term_value_groups ← decode_full_groups bytes directory.term_value_groups
    ok (record {
      row_count = directory.row_count;
      term_key_groups = term_key_groups;
      term_value_groups = term_value_groups;
    })
