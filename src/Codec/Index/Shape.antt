-- ===== src/Codec/Index/Shape.antt =====
-- The file that a successful encoder writes, as one expression, with what the encoder has checked.
use kevindb.Base.{
  ℕ, ◌+◌, ◌^◌, ◌<◌, ◌≡◌, refl, sym, ap, ◌∙◌, arith, List, [], ◌∷◌, ◌++◌, append_assoc, append-nil,
  map, All, length,
}
use kevindb.Base.Result.{Result, ok, >>=-eq_known}
use kevindb.Codec.Types.{Bytes, IsU32, Error, magic, SearchIndex, SearchIndexHeader}
use kevindb.Codec.Write.{to_le_bytes, put_u32, checked_u32}
use kevindb.Codec.Reader.Laws.{concat_map}
use kevindb.Codec.Directory.{
  EncodedGroup, prepare_groups, place_groups, encoded_directory_len, encode_directory, put_entries,
}
use kevindb.Codec.Directory.Layout.{
  entry_bytes, ShortTerms, placed_all, group_size, sizes, prepared, FewTerms, prepare_groups-ok,
  place_groups-ok, put_entries-ok, checked_u32_ok,
}
use kevindb.Codec.Directory.RoundTrip.{directories, header_bytes}
use kevindb.Codec.Index.{put_bodies, encode_search_index}

-- A group's part of the file behind the directory.
abbrev pub body : EncodedGroup → Bytes
body g = g.fst_bytes ++ (g.term_infos ++ (g.postings ++ g.positions))

put_bodies-body :
    (out : Bytes) (gs : List EncodedGroup) → put_bodies out gs ≡ out ++ concat_map body gs
unfolding put_bodies
put_bodies-body out [] = sym (append-nil out)
put_bodies-body out (g ∷ gs) = put_bodies-body _ gs ∙ simp append_assoc

concat_map-append {ℓ} :
    {A : Type ℓ} (f : A → Bytes) (xs ys : List A)
    → concat_map f (xs ++ ys) ≡ concat_map f xs ++ concat_map f ys
concat_map-append f [] ys = refl
concat_map-append f (x ∷ xs) ys =
    ap (λ l. f x ++ l) (concat_map-append f xs ys) ∙ sym (append_assoc (f x) _ _)

bodies-placed_all :
    (offset : ℕ) (gs : List EncodedGroup)
    → concat_map body (placed_all offset gs) ≡ concat_map body gs
bodies-placed_all offset [] = refl
bodies-placed_all offset (g ∷ gs) =
    ap (λ l. body g ++ l) (bodies-placed_all (offset + group_size g) gs)

entries-directories :
    (gs : List EncodedGroup)
    → concat_map (λ g. entry_bytes g.directory) gs ≡ concat_map entry_bytes (directories gs)
entries-directories [] = refl
entries-directories (g ∷ gs) = ap (λ l. entry_bytes g.directory ++ l) (entries-directories gs)

module _ {ℓ κ} {A : Type ℓ} (P : A → Type κ) where
  All-split : (xs ys : List A) → All P (xs ++ ys) → All P xs × All P ys
  All-split [] ys h = (tt, h)
  All-split (x ∷ xs) ys h = let (a, b) = All-split xs ys h.1 in ((h.0, a), b)

abbrev pub keys_of : SearchIndex → List EncodedGroup
keys_of index = map prepared index.term_key_groups

abbrev pub values_of : SearchIndex → List EncodedGroup
values_of index = map prepared index.term_value_groups

abbrev pub len_of : SearchIndex → ℕ
len_of index = encoded_directory_len (keys_of index) (values_of index)

abbrev pub keys_at : SearchIndex → List EncodedGroup
keys_at index = placed_all (24 + len_of index) (keys_of index)

abbrev pub values_at : SearchIndex → List EncodedGroup
values_at index = placed_all (24 + len_of index + sizes (keys_of index)) (values_of index)

abbrev pub header_of : SearchIndex → SearchIndexHeader
header_of index = record {
  row_count = index.row_count;
  term_key_group_count = length (keys_at index);
  term_value_group_count = length (values_at index);
  directory_len = len_of index;
}

abbrev pub entries_of : SearchIndex → Bytes
entries_of index =
    concat_map entry_bytes (directories (keys_at index))
    ++ concat_map entry_bytes (directories (values_at index))

abbrev pub bodies_of : SearchIndex → Bytes
bodies_of index = concat_map body (keys_of index) ++ concat_map body (values_of index)

pub record Encoded (index : SearchIndex) (bytes : Bytes) : Type 0 where
  pub file : bytes ≡ header_bytes (header_of index) ++ (entries_of index ++ bodies_of index)
  pub key_terms : All FewTerms index.term_key_groups
  pub value_terms : All FewTerms index.term_value_groups
  pub key_count : IsU32 (length (keys_at index))
  pub value_count : IsU32 (length (values_at index))
  pub directory_len : IsU32 (len_of index)
  pub room : 24 + len_of index + sizes (keys_of index) + sizes (values_of index) < 2 ^ 64
  pub short_keys : All (λ g. ShortTerms g.directory) (keys_at index)
  pub short_values : All (λ g. ShortTerms g.directory) (values_at index)

-- What is written in front of the directory, as the encoder nests it.
abbrev header_start : SearchIndex → Bytes
header_start index =
    (((magic ++ to_le_bytes 4 index.row_count) ++ to_le_bytes 4 (length (keys_at index)))
      ++ to_le_bytes 4 (length (values_at index)))
    ++ to_le_bytes 4 (len_of index)

file_shape :
    (index : SearchIndex) {bytes : Bytes}
    → ◌≡◌ {A = Result Error Bytes}
        (ok (
          put_bodies
            (header_start index
              ++ concat_map (λ g. entry_bytes g.directory) (keys_at index ++ values_at index))
            (keys_at index ++ values_at index)))
        (ok bytes)
    → bytes ≡ header_bytes (header_of index) ++ (entries_of index ++ bodies_of index)
file_shape index {bytes} h =
    let keys = keys_at index in
    let values = values_at index in
    let built : bytes
        ≡ put_bodies
            (header_start index ++ concat_map (λ g. entry_bytes g.directory) (keys ++ values))
            (keys ++ values) =
      cc in
    built
    ∙ rw
        (
          put_bodies-body,
          concat_map-append (λ g. entry_bytes g.directory) keys values,
          concat_map-append body keys values,
          entries-directories keys,
          entries-directories values,
          bodies-placed_all (24 + len_of index) (keys_of index),
          bodies-placed_all (24 + len_of index + sizes (keys_of index)) (values_of index),
        )
        (simp append_assoc)

pub encode_search_index-Encoded :
    (index : SearchIndex) {bytes : Bytes}
    → encode_search_index index ≡ ok bytes
    → Encoded index bytes
unfolding encode_search_index put_u32 encode_directory
encode_search_index-Encoded index {bytes} h =
    let K = keys_of index in
    let V = values_of index in
    let o = 24 + len_of index in
    let (k, h1) =
      >>=-eq_known (prepare_groups index.term_key_groups) _ K
        (λ x e. (prepare_groups-ok index.term_key_groups e).0) h in
    let (v, h2) =
      >>=-eq_known (prepare_groups index.term_value_groups) _ V
        (λ x e. (prepare_groups-ok index.term_value_groups e).0) h1 in
    let (d, h3) =
      >>=-eq_known (checked_u32 (encoded_directory_len K V)) _ (len_of index)
        (λ x e. (checked_u32_ok (len_of index) e).0) h2 in
    let dl = (checked_u32_ok (len_of index) d).1 in
    let (p, h4) =
      >>=-eq_known (place_groups K o) _ (keys_at index, o + sizes K)
        (λ x e. (place_groups-ok K o (omega (arith, dl)) e).0) h3 in
    let mid = (place_groups-ok K o (omega (arith, dl)) p).1 in
    let (q, h5) =
      >>=-eq_known (place_groups V (o + sizes K)) _ (values_at index, o + sizes K + sizes V)
        (λ x e. (place_groups-ok V (o + sizes K) mid e).0) h4 in
    let (kc, h6) =
      >>=-eq_known (checked_u32 (length (keys_at index))) _ (length (keys_at index))
        (λ x e. (checked_u32_ok (length (keys_at index)) e).0) h5 in
    let (vc, h7) =
      >>=-eq_known (checked_u32 (length (values_at index))) _ (length (values_at index))
        (λ x e. (checked_u32_ok (length (values_at index)) e).0) h6 in
    let both = keys_at index ++ values_at index in
    let start = header_start index in
    let (w, h8) =
      >>=-eq_known (put_entries start both) _
        (start ++ concat_map (λ g. entry_bytes g.directory) both)
        (λ x e. (put_entries-ok start both e).0) h7 in
    let (sk, sv) =
      All-split (λ (g : EncodedGroup). ShortTerms g.directory) (keys_at index) (values_at index)
        (put_entries-ok start both w).1 in
    record {
      file = file_shape index h8;
      key_terms = (prepare_groups-ok index.term_key_groups k).1;
      value_terms = (prepare_groups-ok index.term_value_groups v).1;
      key_count = (checked_u32_ok (length (keys_at index)) kc).1;
      value_count = (checked_u32_ok (length (values_at index)) vc).1;
      directory_len = dl;
      room = (place_groups-ok V (o + sizes K) mid q).1;
      short_keys = sk;
      short_values = sv;
    }
