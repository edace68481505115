-- ===== src/Codec/TermInfos.antt =====
-- The table of a group's terms: `encode_search_term_infos`, `decode_search_term_infos`,
-- `encode_term_infos` and `decode_term_infos` of src/search/codec.rs.
pub mod RoundTrip
use kevindb.Base.{
  ℕ, zero, suc, ◌*◌, ◌≡◌, true, false, List, [], ◌∷◌, map, leb, ◌==◌, not, length, if◌then◌else◌,
}
use kevindb.Base.Result.{Result, ok, err}
use kevindb.Base.Result
use kevindb.Codec.Types.{
  Bytes, u64_mod, Error, term_info_len_overflow, term_info_len_mismatch, TermInfo,
  SearchIndexTermInfo,
}
use kevindb.Codec.Write.{put_u32}
use kevindb.Codec.Reader.{
  Reader, continue, ◌>>=◌, ◌>>◌, pure, new_reader, read_u32, expect_done, read_times, result,
}

unfoldable pub put_term_infos : List SearchIndexTermInfo → Bytes → Bytes
put_term_infos [] out = out
put_term_infos (info ∷ infos) out =
    let out' =
      put_u32 (put_u32 (put_u32 out info.doc_count) info.postings_offset) info.postings_len in
    put_term_infos infos (put_u32 (put_u32 out' info.positions_offset) info.positions_len)

unfoldable pub encode_search_term_infos : List SearchIndexTermInfo → Bytes
encode_search_term_infos infos = put_term_infos infos []

unfoldable pub read_term_info : Reader SearchIndexTermInfo
read_term_info = do
  doc_count ← read_u32
  postings_offset ← read_u32
  postings_len ← read_u32
  positions_offset ← read_u32
  positions_len ← read_u32
  pure (record {
    doc_count = doc_count;
    postings_offset = postings_offset;
    postings_len = postings_len;
    positions_offset = positions_offset;
    positions_len = positions_len;
  })

unfoldable pub decode_search_term_infos : Bytes → ℕ → Result Error (List SearchIndexTermInfo)
decode_search_term_infos bytes expected_count =
    if leb u64_mod (expected_count * 20)
    then err term_info_len_overflow
    else if not (length bytes == expected_count * 20)
    then err term_info_len_mismatch
    else result (
        (do infos ← read_times read_term_info expected_count; expect_done; pure infos)
          (new_reader bytes))

abbrev pub to_search_info : TermInfo → SearchIndexTermInfo
to_search_info info = record {
  doc_count = info.doc_count;
  postings_offset = info.postings_offset;
  postings_len = info.postings_len;
  positions_offset = info.positions_offset;
  positions_len = info.positions_len;
}

abbrev pub of_search_info : SearchIndexTermInfo → TermInfo
of_search_info info = record {
  doc_count = info.doc_count;
  postings_offset = info.postings_offset;
  postings_len = info.postings_len;
  positions_offset = info.positions_offset;
  positions_len = info.positions_len;
}

unfoldable pub encode_term_infos : List TermInfo → Bytes
encode_term_infos infos = encode_search_term_infos (map to_search_info infos)

unfoldable pub decode_term_infos : Bytes → ℕ → Result Error (List TermInfo)
decode_term_infos bytes expected_count =
    Result.◌>>=◌ (decode_search_term_infos bytes expected_count)
      (λ infos. ok (map of_search_info infos))
