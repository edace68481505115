-- ===== src/Codec/TermInfos/RoundTrip.antt =====
-- The table of terms as it is written, its size, and the decoder on it.
use kevindb.Base.{
  suc, ◌*◌, ◌^◌, ◌<◌, ◌≡◌, refl, sym, ap, ◌∙◌, arith, false, List, [], ◌∷◌, ◌++◌, append_assoc,
  append-nil, map, All, length, length-append, leb, ==_iff, lt→leb, subst,
}
use kevindb.Base.Result.{ok}
use kevindb.Codec.Types.{Bytes, IsU32, u64_mod, TermInfo, SearchIndexTermInfo}
use kevindb.Codec.Write.{put_u32, to_le_bytes}
use kevindb.Codec.Reader.Laws.{
  Reads, Reads-pure, Reads-bind, Reads-read_u32, Reads-new, expect_done-reader_at, concat_map,
  Reads-read_times,
}
use kevindb.Codec.TermInfos.{
  put_term_infos, encode_search_term_infos, read_term_info, decode_search_term_infos,
  to_search_info, of_search_info, encode_term_infos, decode_term_infos,
}

-- All five fields are u32.
pub record IsTermInfo (info : SearchIndexTermInfo) : Type 0 where
  pub doc_count : IsU32 info.doc_count
  pub postings_offset : IsU32 info.postings_offset
  pub postings_len : IsU32 info.postings_len
  pub positions_offset : IsU32 info.positions_offset
  pub positions_len : IsU32 info.positions_len

abbrev info_bytes : SearchIndexTermInfo → Bytes
info_bytes info =
    to_le_bytes 4 info.doc_count
    ++ (to_le_bytes 4 info.postings_offset
        ++ (to_le_bytes 4 info.postings_len
            ++ (to_le_bytes 4 info.positions_offset ++ (to_le_bytes 4 info.positions_len ++ []))))

abbrev infos_bytes : List SearchIndexTermInfo → Bytes
infos_bytes = concat_map info_bytes

put_term_infos-infos_bytes :
    (infos : List SearchIndexTermInfo) (out : Bytes)
    → put_term_infos infos out ≡ out ++ infos_bytes infos
unfolding put_term_infos put_u32
put_term_infos-infos_bytes [] out = sym (append-nil out)
put_term_infos-infos_bytes (info ∷ infos) out =
    put_term_infos-infos_bytes infos _ ∙ simp append_assoc

Reads-read_term_info :
    (info : SearchIndexTermInfo) → IsTermInfo info → Reads read_term_info (info_bytes info) info
unfolding read_term_info
Reads-read_term_info info h = Reads-bind _ _ (Reads-read_u32 _ h.doc_count) (
    Reads-bind _ _ (Reads-read_u32 _ h.postings_offset) (
      Reads-bind _ _ (Reads-read_u32 _ h.postings_len) (
        Reads-bind _ _ (Reads-read_u32 _ h.positions_offset)
          (Reads-bind _ _ (Reads-read_u32 _ h.positions_len) (Reads-pure info)))))

length-infos_bytes :
    (infos : List SearchIndexTermInfo) → length (infos_bytes infos) ≡ length infos * 20
length-infos_bytes [] = refl
length-infos_bytes (info ∷ infos) =
    omega (arith, length-append (info_bytes info) (infos_bytes infos), length-infos_bytes infos)

pub decode_search_term_infos-encode_search_term_infos :
    (infos : List SearchIndexTermInfo)
    → All IsTermInfo infos
    → length (encode_search_term_infos infos) < 2 ^ 64
    → decode_search_term_infos (encode_search_term_infos infos) (length infos) ≡ ok infos
unfolding decode_search_term_infos encode_search_term_infos
decode_search_term_infos-encode_search_term_infos infos h fits =
    let size : length (put_term_infos infos []) ≡ length infos * 20 =
      rw (put_term_infos-infos_bytes infos []) (length-infos_bytes infos) in
    let room : leb u64_mod (length infos * 20) ≡ false = lt→leb _ _ (omega (arith, size, fits)) in
    rw
      (
        room,
        size,
        (==_iff (length infos * 20) (length infos * 20)).1 refl,
        put_term_infos-infos_bytes infos [],
      )
      (rw (
        Reads-new (infos_bytes infos) infos
            (Reads-read_times read_term_info info_bytes IsTermInfo Reads-read_term_info infos h)
            (rw (put_term_infos-infos_bytes infos []) at fits),
        expect_done-reader_at (infos_bytes infos),
      ))

map_back : (infos : List TermInfo) → map of_search_info (map to_search_info infos) ≡ infos
map_back [] = refl
map_back (info ∷ infos) = ap (◌∷◌ info) (map_back infos)

length-map_to : (infos : List TermInfo) → length (map to_search_info infos) ≡ length infos
length-map_to [] = refl
length-map_to (info ∷ infos) = ap suc (length-map_to infos)

pub decode_term_infos-encode_term_infos :
    (infos : List TermInfo)
    → All (λ info. IsTermInfo (to_search_info info)) infos
    → length (encode_term_infos infos) < 2 ^ 64
    → decode_term_infos (encode_term_infos infos) (length infos) ≡ ok infos
unfolding decode_term_infos encode_term_infos
decode_term_infos-encode_term_infos infos h fits =
    rw
      (subst
        (λ n.
          decode_search_term_infos (encode_search_term_infos (map to_search_info infos)) n
          ≡ ok (map to_search_info infos))
        (length-map_to infos)
        (decode_search_term_infos-encode_search_term_infos (map to_search_info infos)
          (All-map infos h) fits))
      (ap ok (map_back infos))
  where
    All-map :
        (xs : List TermInfo)
        → All (λ info. IsTermInfo (to_search_info info)) xs
        → All IsTermInfo (map to_search_info xs)
    All-map [] k = tt
    All-map (x ∷ xs) k = (k.0, All-map xs k.1)
