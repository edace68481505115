-- ===== src/Codec/Directory/RoundTrip.antt =====
-- The header and the directory, as the encoder writes and the decoder reads them.
use kevindb.Base.{
  ℕ, ◌+◌, ◌^◌, ◌<◌, ◌≡◌, refl, sym, ap, arith, true, List, [], ◌∷◌, ◌++◌, All, length,
  length-append, ==_iff, ◌==◌,
}
use kevindb.Base.Result.{ok}
use kevindb.Codec.Types.{
  Bytes, IsU32, IsU64, magic, SearchIndexHeader, SearchIndexRange, SearchIndexGroupDirectory,
}
use kevindb.Codec.Write.{to_le_bytes}
use kevindb.Codec.Reader.{read_range, result}
use kevindb.Codec.Reader.Laws.{
  Reads, Reads-pure, Reads-bind, Reads-read_u32, Reads-read_vec, Reads-read_range, Reads-last,
  expect_done-reader_at, Reads-expect_bytes, Reads-read_times, concat_map,
}
use kevindb.Codec.Directory.{
  EncodedGroup, read_entry, read_group_directories, read_header, decode_search_index_header,
  decode_search_index_directory, sum_entry_lens, encoded_directory_len,
}
use kevindb.Codec.Directory.Layout.{
  range_bytes, vec_bytes, entry_bytes, ShortTerms, placed, placed_all, group_size, sizes,
}

pub record IsRange (r : SearchIndexRange) : Type 0 where
  pub offset : IsU64 r.offset
  pub len : IsU64 r.len

-- The numbers of an entry fit their fields.
pub record IsEntry (d : SearchIndexGroupDirectory) : Type 0 where
  pub min_term : IsU32 (length d.min_term)
  pub max_term : IsU32 (length d.max_term)
  pub term_info_count : IsU32 d.term_info_count
  pub fst : IsRange d.fst
  pub term_infos : IsRange d.term_infos
  pub postings : IsRange d.postings
  pub positions : IsRange d.positions

Reads-range : (r : SearchIndexRange) → IsRange r → Reads read_range (range_bytes r) r
Reads-range r h = Reads-read_range r h.offset h.len

Reads-read_entry : (d : SearchIndexGroupDirectory) → IsEntry d → Reads read_entry (entry_bytes d) d
unfolding read_entry
Reads-read_entry d h = Reads-bind _ _ (Reads-read_vec d.min_term h.min_term) (
    Reads-bind _ _ (Reads-read_vec d.max_term h.max_term) (
      Reads-bind _ _ (Reads-read_u32 d.term_info_count h.term_info_count) (
        Reads-bind _ _ (Reads-range d.fst h.fst) (
          Reads-bind _ _ (Reads-range d.term_infos h.term_infos) (
            Reads-bind _ _ (Reads-range d.postings h.postings)
              (Reads-bind _ _ (Reads-range d.positions h.positions) (Reads-pure d)))))))

Reads-read_group_directories :
    (ds : List SearchIndexGroupDirectory)
    → All IsEntry ds
    → Reads (read_group_directories (length ds)) (concat_map entry_bytes ds) ds
unfolding read_group_directories
Reads-read_group_directories ds h =
    Reads-read_times read_entry entry_bytes IsEntry Reads-read_entry ds h

pub length-entry_bytes :
    (d : SearchIndexGroupDirectory)
    → length (entry_bytes d) ≡ 4 + length d.min_term + 4 + length d.max_term + 4 + 64
length-entry_bytes d =
    let min = vec_bytes d.min_term in
    let max = vec_bytes d.max_term in
    omega (arith, length-append d.min_term (entry_tail d), length-append d.max_term (entry_end d))
  where
    entry_end : SearchIndexGroupDirectory → Bytes
    entry_end x =
        to_le_bytes 4 x.term_info_count
        ++ (range_bytes x.fst
            ++ (range_bytes x.term_infos
                ++ (range_bytes x.postings ++ (range_bytes x.positions ++ []))))

    entry_tail : SearchIndexGroupDirectory → Bytes
    entry_tail x = vec_bytes x.max_term ++ entry_end x

-- A directory of the length that the header states is read back.
pub decode_directory-entries :
    (header : SearchIndexHeader) (keys values : List SearchIndexGroupDirectory)
    → All IsEntry keys
    → All IsEntry values
    → header.term_key_group_count ≡ length keys
    → header.term_value_group_count ≡ length values
    → header.directory_len ≡ length (concat_map entry_bytes keys ++ concat_map entry_bytes values)
    → IsU64 header.directory_len
    → decode_search_index_directory header
        (concat_map entry_bytes keys ++ concat_map entry_bytes values)
      ≡ ok (record {
        row_count = header.row_count;
        term_key_groups = keys;
        term_value_groups = values;
      })
unfolding decode_search_index_directory
decode_directory-entries header keys values hk hv ck cv cl fits =
    let k = concat_map entry_bytes keys in
    let v = concat_map entry_bytes values in
    let size : (length (k ++ v) == header.directory_len) ≡ true =
      (==_iff (length (k ++ v)) header.directory_len).1 (sym cl) in
    let first = (Reads-read_group_directories keys hk).at [] v (omega (arith, cl, fits)) in
    let second =
      Reads-last k v values (Reads-read_group_directories values hv) (omega (arith, cl, fits)) in
    rw (size, ck, cv) (rw (first, second, expect_done-reader_at (k ++ v)))

abbrev pub header_bytes : SearchIndexHeader → Bytes
header_bytes h =
    magic
    ++ (to_le_bytes 4 h.row_count
        ++ (to_le_bytes 4 h.term_key_group_count
            ++ (to_le_bytes 4 h.term_value_group_count ++ (to_le_bytes 4 h.directory_len ++ []))))

pub record IsHeader (h : SearchIndexHeader) : Type 0 where
  pub row_count : IsU32 h.row_count
  pub term_key_group_count : IsU32 h.term_key_group_count
  pub term_value_group_count : IsU32 h.term_value_group_count
  pub directory_len : IsU32 h.directory_len

-- Whatever follows the header.
pub decode_header-header_bytes :
    (h : SearchIndexHeader) (rest : Bytes)
    → IsHeader h
    → length (header_bytes h ++ rest) < 2 ^ 64
    → decode_search_index_header (header_bytes h ++ rest) ≡ ok h
unfolding decode_search_index_header read_header
decode_header-header_bytes h rest u fits =
    let all = Reads-bind _ _ (Reads-expect_bytes magic) (
      Reads-bind _ _ (Reads-read_u32 _ u.row_count) (
        Reads-bind _ _ (Reads-read_u32 _ u.term_key_group_count) (
          Reads-bind _ _ (Reads-read_u32 _ u.term_value_group_count)
            (Reads-bind _ _ (Reads-read_u32 _ u.directory_len) (Reads-pure h))))) in
    ap result (all.at [] rest fits)

abbrev pub directories : List EncodedGroup → List SearchIndexGroupDirectory
directories [] = []
directories (g ∷ gs) = g.directory ∷ directories gs

-- Laying the groups out does not change the size of their entries.
length-entries :
    (offset : ℕ) (gs : List EncodedGroup)
    → length (concat_map entry_bytes (directories (placed_all offset gs))) ≡ sum_entry_lens gs
length-entries offset [] = refl
length-entries offset (g ∷ gs) = omega (
  arith,
  length-append (entry_bytes (placed offset g).directory)
      (concat_map entry_bytes (directories (placed_all (offset + group_size g) gs))),
  length-entry_bytes (placed offset g).directory,
  length-entries (offset + group_size g) gs,
)

sum_entry_lens-append :
    (gs hs : List EncodedGroup) → sum_entry_lens (gs ++ hs) ≡ sum_entry_lens gs + sum_entry_lens hs
sum_entry_lens-append [] hs = omega arith
sum_entry_lens-append (g ∷ gs) hs = omega (arith, sum_entry_lens-append gs hs)

-- `encoded_directory_len` is the size of the directory that is written.
pub encoded_directory_len-entries :
    (o o' : ℕ) (gs hs : List EncodedGroup)
    → encoded_directory_len gs hs
      ≡ length (
          concat_map entry_bytes (directories (placed_all o gs))
          ++ concat_map entry_bytes (directories (placed_all o' hs)))
unfolding encoded_directory_len
encoded_directory_len-entries o o' gs hs =
    let a = concat_map entry_bytes (directories (placed_all o gs)) in
    let b = concat_map entry_bytes (directories (placed_all o' hs)) in
    omega (
      arith,
      sum_entry_lens-append gs hs,
      length-append a b,
      length-entries o gs,
      length-entries o' hs,
    )

-- Where the groups end below 2^64, every entry of the layout fits its fields.
pub placed_all-IsEntry :
    (offset : ℕ) (gs : List EncodedGroup)
    → offset + sizes gs < 2 ^ 64
    → All (λ g. ShortTerms g.directory) (placed_all offset gs)
    → All (λ g. IsU32 g.directory.term_info_count) gs
    → All IsEntry (directories (placed_all offset gs))
placed_all-IsEntry offset [] fits short few = tt
placed_all-IsEntry offset (g ∷ gs) fits short few = (
  record {
    min_term = short.0.0;
    max_term = short.0.1;
    term_info_count = few.0;
    fst = record { offset = omega (arith, fits); len = omega (arith, fits) };
    term_infos = record { offset = omega (arith, fits); len = omega (arith, fits) };
    postings = record { offset = omega (arith, fits); len = omega (arith, fits) };
    positions = record { offset = omega (arith, fits); len = omega (arith, fits) };
  },
  placed_all-IsEntry (offset + group_size g) gs (omega (arith, fits)) short.1 few.1,
)
