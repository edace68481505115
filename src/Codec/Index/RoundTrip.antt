-- ===== src/Codec/Index/RoundTrip.antt =====
-- The decoder on the file that the encoder writes.
use kevindb.Base.{
  ℕ, suc, ◌+◌, ◌^◌, ◌<◌, ◌≡◌, refl, sym, ap, ◌∙◌, arith, subst, true, Bool, List, [], ◌∷◌, ◌++◌,
  append_assoc, append-nil, map, All, length, length-append, ltb, leb, slice, le→leb, lt→ltb,
}
use kevindb.Base.Result.{ok, try_map}
use kevindb.Codec.Types.{Bytes, IsU32, u64_mod, RowGroup, SearchIndex}
use kevindb.Codec.Reader.Laws.{concat_map, slice-middle}
use kevindb.Codec.TermInfos.{encode_term_infos, to_search_info}
use kevindb.Codec.TermInfos.RoundTrip.{IsTermInfo, decode_term_infos-encode_term_infos}
use kevindb.Codec.Directory.{
  EncodedGroup, decode_search_index_header, decode_search_index_directory,
}
use kevindb.Codec.Directory.Layout.{placed, placed_all, group_size, sizes, prepared, FewTerms}
use kevindb.Codec.Index.{
  encode_search_index, decode_search_index, slice_range, decode_loaded_group, decode_full_group,
  decode_full_groups,
}
use kevindb.Codec.Directory.RoundTrip.{
  directories, header_bytes, decode_header-header_bytes, decode_directory-entries,
  placed_all-IsEntry, encoded_directory_len-entries,
}
use kevindb.Codec.Index.Shape.{
  body, keys_of, values_of, len_of, keys_at, values_at, header_of, entries_of, bodies_of, Encoded,
  encode_search_index-Encoded,
}

length-body : (g : EncodedGroup) → length (body g) ≡ group_size g
length-body g = omega (
  arith,
  length-append g.fst_bytes (g.term_infos ++ (g.postings ++ g.positions)),
  length-append g.term_infos (g.postings ++ g.positions),
  length-append g.postings g.positions,
)

-- A range that stands behind `pre`.
slice_range-at :
    (file pre x rest : Bytes) (o : ℕ)
    → file ≡ pre ++ (x ++ rest)
    → o ≡ length pre
    → length file < 2 ^ 64
    → slice_range file (record { offset = o; len = length x }) ≡ ok x
unfolding slice_range
slice_range-at file pre x rest o e eo fits =
    let size : length file ≡ length pre + (length x + length rest) =
      ap length e ∙ omega (arith, length-append pre (x ++ rest), length-append x rest) in
    let room : ltb (o + length x) u64_mod ≡ true = lt→ltb _ _ (omega (arith, size)) in
    let inside : leb (o + length x) (length file) ≡ true = le→leb _ _ (omega (arith, size)) in
    rw (room, inside) (rw (eo, e) (ap ok (slice-middle pre x rest)))

-- What a decoder checks of a group, besides its place.
pub record IsGroup (valid_fst : Bytes → Bool) (g : RowGroup) : Type 0 where
  pub fst : valid_fst g.fst_bytes ≡ true
  pub term_infos : All (λ info. IsTermInfo (to_search_info info)) g.term_infos

module _ (valid_fst : Bytes → Bool) where
  decode_full_group-placed :
      (g : RowGroup) (file pre rest : Bytes)
      → IsGroup valid_fst g
      → file ≡ pre ++ (body (prepared g) ++ rest)
      → length file < 2 ^ 64
      → decode_full_group valid_fst file (placed (length pre) (prepared g)).directory ≡ ok g
  unfolding decode_full_group decode_loaded_group
  decode_full_group-placed g file pre rest good e fits =
      let f = g.fst_bytes in
      let i = encode_term_infos g.term_infos in
      let p = g.postings in
      let q = g.positions in
      let e1 : file ≡ pre ++ (f ++ (i ++ (p ++ (q ++ rest)))) = e ∙ simp append_assoc in
      let e2 : file ≡ (pre ++ f) ++ (i ++ (p ++ (q ++ rest))) = e ∙ simp append_assoc in
      let e3 : file ≡ ((pre ++ f) ++ i) ++ (p ++ (q ++ rest)) = e ∙ simp append_assoc in
      let e4 : file ≡ (((pre ++ f) ++ i) ++ p) ++ (q ++ rest) = e ∙ simp append_assoc in
      let n2 : length pre + length f ≡ length (pre ++ f) = omega (arith, length-append pre f) in
      let n3 : length pre + length f + length i ≡ length ((pre ++ f) ++ i) =
        omega (arith, n2, length-append (pre ++ f) i) in
      let n4 : length pre + length f + length i + length p ≡ length (((pre ++ f) ++ i) ++ p) =
        omega (arith, n3, length-append ((pre ++ f) ++ i) p) in
      let small : length i < 2 ^ 64 = omega (
        arith,
        fits,
        ap length e2,
        length-append (pre ++ f) (i ++ (p ++ (q ++ rest))),
        length-append i (p ++ (q ++ rest)),
      ) in
      rw (
        slice_range-at file pre f _ _ e1 refl fits,
        slice_range-at file (pre ++ f) i _ _ e2 n2 fits,
        slice_range-at file ((pre ++ f) ++ i) p _ _ e3 n3 fits,
        slice_range-at file (((pre ++ f) ++ i) ++ p) q _ _ e4 n4 fits,
        good.fst,
        decode_term_infos-encode_term_infos g.term_infos good.term_infos small,
      )

  -- The groups that stand behind `pre` are read back through their entries.
  decode_groups-placed :
      (groups : List RowGroup) (file pre rest : Bytes)
      → All (IsGroup valid_fst) groups
      → file ≡ pre ++ (concat_map body (map prepared groups) ++ rest)
      → length file < 2 ^ 64
      → try_map
          (decode_full_group valid_fst file)
          (directories (placed_all (length pre) (map prepared groups)))
        ≡ ok groups
  decode_groups-placed [] file pre rest good e fits = refl
  decode_groups-placed (g ∷ groups) file pre rest good e fits =
      let b = body (prepared g) in
      let bs = concat_map body (map prepared groups) in
      let here : file ≡ pre ++ (b ++ (bs ++ rest)) = e ∙ simp append_assoc in
      let later : file ≡ (pre ++ b) ++ (bs ++ rest) = e ∙ simp append_assoc in
      let next : length (pre ++ b) ≡ length pre + group_size (prepared g) =
        omega (arith, length-append pre b, length-body (prepared g)) in
      let ih = decode_groups-placed groups file (pre ++ b) rest good.1 later fits in
      rw (
        decode_full_group-placed g file pre (bs ++ rest) good.0 here fits,
        subst
            (λ n.
              try_map (decode_full_group valid_fst file)
                (directories (placed_all n (map prepared groups)))
              ≡ ok groups)
            next ih,
      )

length-directories : (gs : List EncodedGroup) → length (directories gs) ≡ length gs
length-directories [] = refl
length-directories (g ∷ gs) = ap suc (length-directories gs)

length-bodies : (gs : List EncodedGroup) → length (concat_map body gs) ≡ sizes gs
length-bodies [] = refl
length-bodies (g ∷ gs) =
    omega (arith, length-append (body g) (concat_map body gs), length-body g, length-bodies gs)

All-prepared :
    (groups : List RowGroup)
    → All FewTerms groups
    → All (λ g. IsU32 g.directory.term_info_count) (map prepared groups)
All-prepared [] h = tt
All-prepared (g ∷ groups) h = (h.0, All-prepared groups h.1)

-- What the decoder needs of an index besides what the encoder checks.
pub record IsIndex (valid_fst : Bytes → Bool) (index : SearchIndex) : Type 0 where
  pub row_count : IsU32 index.row_count
  pub key_groups : All (IsGroup valid_fst) index.term_key_groups
  pub value_groups : All (IsGroup valid_fst) index.term_value_groups

abbrev front : SearchIndex → Bytes
front index = header_bytes (header_of index) ++ entries_of index

module _ (valid_fst : Bytes → Bool) (index : SearchIndex) {bytes : Bytes}
    (enc : Encoded index bytes) (fits : length bytes < 2 ^ 64) where
  size-entries : length (entries_of index) ≡ len_of index
  size-entries = sym (
      encoded_directory_len-entries (24 + len_of index) (24 + len_of index + sizes (keys_of index))
        (keys_of index) (values_of index))

  size-front : length (front index) ≡ 24 + len_of index
  size-front =
      omega (arith, length-append (header_bytes (header_of index)) (entries_of index), size-entries)

  header-read : IsU32 index.row_count → decode_search_index_header bytes ≡ ok (header_of index)
  header-read rows = rw enc.file (
      decode_header-header_bytes (header_of index) (entries_of index ++ bodies_of index)
        (record {
          row_count = rows;
          term_key_group_count = enc.key_count;
          term_value_group_count = enc.value_count;
          directory_len = enc.directory_len;
        })
        (rw enc.file at fits))

  directory-read :
      decode_search_index_directory (header_of index) (slice 24 (24 + len_of index) bytes)
      ≡ ok (record {
        row_count = index.row_count;
        term_key_groups = directories (keys_at index);
        term_value_groups = directories (values_at index);
      })
  directory-read =
      let middle : slice 24 (24 + len_of index) bytes ≡ entries_of index = rw enc.file (
        subst
          (λ n.
            slice 24 (24 + n)
              (header_bytes (header_of index) ++ (entries_of index ++ bodies_of index))
            ≡ entries_of index)
          size-entries
          (slice-middle (header_bytes (header_of index)) (entries_of index) (bodies_of index))) in
      rw middle (
        decode_directory-entries (header_of index) (directories (keys_at index))
          (directories (values_at index))
          (placed_all-IsEntry (24 + len_of index) (keys_of index) (omega (arith, enc.room))
            enc.short_keys (All-prepared index.term_key_groups enc.key_terms))
          (placed_all-IsEntry (24 + len_of index + sizes (keys_of index)) (values_of index) enc.room
            enc.short_values (All-prepared index.term_value_groups enc.value_terms))
          (sym (length-directories (keys_at index))) (sym (length-directories (values_at index)))
          (sym size-entries) (omega (arith, enc.directory_len)))

  keys-read :
      All (IsGroup valid_fst) index.term_key_groups
      → try_map (decode_full_group valid_fst bytes) (directories (keys_at index))
        ≡ ok index.term_key_groups
  keys-read good =
      subst
        (λ n.
          try_map (decode_full_group valid_fst bytes) (directories (placed_all n (keys_of index)))
          ≡ ok index.term_key_groups)
        size-front
        (decode_groups-placed valid_fst index.term_key_groups bytes (front index)
          (concat_map body (values_of index)) good (enc.file ∙ simp append_assoc) fits)

  values-read :
      All (IsGroup valid_fst) index.term_value_groups
      → try_map (decode_full_group valid_fst bytes) (directories (values_at index))
        ≡ ok index.term_value_groups
  values-read good =
      let pre = front index ++ concat_map body (keys_of index) in
      let size : length pre ≡ 24 + len_of index + sizes (keys_of index) = omega (
        arith,
        length-append (front index) (concat_map body (keys_of index)),
        size-front,
        length-bodies (keys_of index),
      ) in
      subst
        (λ n.
          try_map (decode_full_group valid_fst bytes) (directories (placed_all n (values_of index)))
          ≡ ok index.term_value_groups)
        size
        (decode_groups-placed valid_fst index.term_value_groups bytes pre [] good
          (enc.file ∙ simp (append_assoc, append-nil)) fits)

-- An index that is encoded with success is decoded to itself.
pub decode_search_index-encode_search_index :
    (valid_fst : Bytes → Bool) (index : SearchIndex) {bytes : Bytes}
    → IsIndex valid_fst index
    → encode_search_index index ≡ ok bytes
    → length bytes < 2 ^ 64
    → decode_search_index valid_fst bytes ≡ ok index
unfolding decode_search_index decode_full_groups
decode_search_index-encode_search_index valid_fst index {bytes} good h fits =
    let enc = encode_search_index-Encoded index h in
    let size : length bytes ≡ length (front index) + length (bodies_of index) =
      ap length enc.file
      ∙ omega (
        arith,
        length-append (header_bytes (header_of index)) (entries_of index ++ bodies_of index),
        length-append (header_bytes (header_of index)) (entries_of index),
        length-append (entries_of index) (bodies_of index),
      ) in
    let end : ltb (24 + len_of index) u64_mod ≡ true =
      lt→ltb _ _ (omega (arith, enc.directory_len)) in
    let inside : leb (24 + len_of index) (length bytes) ≡ true =
      le→leb _ _ (omega (arith, size, size-front valid_fst index enc fits)) in
    rw (header-read valid_fst index enc fits good.row_count, end, inside)
      (rw (
        directory-read valid_fst index enc fits,
        keys-read valid_fst index enc fits good.key_groups,
        values-read valid_fst index enc fits good.value_groups,
      ))
