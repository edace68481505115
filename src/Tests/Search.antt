-- ===== src/Tests/Search.antt =====
-- The search modules on concrete inputs.
use kevindb.Base.{subst, ◌≡◌, refl, arith, ◌↔◌, ◌&&◌, true, false, Option, some, List, [], ◌∷◌, All}
use kevindb.Base.Maps.{contains}
use kevindb.Base.Text.{text}
use kevindb.Codec.Types.{Bytes, no_range, SearchIndexGroupDirectory, SearchIndexDirectory}
use kevindb.Search.Terms.{
  leb_bytes, starts_with, below, next_prefix, min_max_overlaps_prefix, path_matches_pattern,
  term_value_prefix, simple_trailing_wildcard_prefix,
}
use kevindb.Search.Terms.Pruning.{starts_with-next_prefix, min_max_overlaps_prefix_iff, Between}
use kevindb.Search.Terms.Patterns.{path_matches_pattern-starts_with}
use kevindb.Search.Query.{
  SearchPredicate, all_fields, text_predicate, parse, tokens_for_text, is_stop_word, matches_path,
}
use kevindb.Search.Query.Tokens.{tokens_for_text-fixed, parse-IsToken, IsToken, IsPhrase, Distinct}
use kevindb.Search.Selection.Wanted.{values}
use kevindb.Search.Selection.Groups.{select_search_index_groups}
use kevindb.Search.Selection.Groups.Keeps.{selected_groups}
use kevindb.Search.Selection.Groups.Complete.{Holds, select_search_index_groups_complete}
use kevindb.Search.Selection.Terms.{
  SearchIndexGroupDictionary, Entries, merge_selected_term, select_prefix_terms,
  select_value_terms_for_token, select_value_terms_for_query,
}
use kevindb.Search.Selection.Pruned.{select_search_index_terms-groups}
use kevindb.Search.Selection.Slices.{SearchIndexTermSlices, select_search_index_terms}
use kevindb.Search.Selection.Terms.Chosen.{keys_of, any_group, chosen}
use kevindb.Search.Selection.Slices.Exact.{has_slice, in_table, select_search_index_terms_exact}
use kevindb.Search.Selection.Slices.Faithful.{FromGroup}

starts_with-next_prefix_example : starts_with (97 ∷ 255 ∷ []) (97 ∷ 255 ∷ 7 ∷ []) ≡ (
    leb_bytes (97 ∷ 255 ∷ []) (97 ∷ 255 ∷ 7 ∷ [])
    && below (97 ∷ 255 ∷ 7 ∷ []) (next_prefix (97 ∷ 255 ∷ [])))
starts_with-next_prefix_example =
    starts_with-next_prefix (97 ∷ 255 ∷ []) (97 ∷ 255 ∷ 7 ∷ []) (omega arith, (omega arith, tt))
      (omega arith, (omega arith, (omega arith, tt)))

carried : next_prefix (97 ∷ 255 ∷ []) ≡ some (98 ∷ [])
unfolding next_prefix
carried = refl

min_max_overlaps_prefix_iff_example :
    (min_max_overlaps_prefix (97 ∷ []) (99 ∷ []) (98 ∷ []) ≡ true)
    ↔ Between (97 ∷ []) (99 ∷ []) (98 ∷ [])
min_max_overlaps_prefix_iff_example =
    min_max_overlaps_prefix_iff (97 ∷ []) (99 ∷ []) (98 ∷ []) (omega arith, tt) (omega arith, tt)
      refl

inputs_found : simple_trailing_wildcard_prefix (text "in*") ≡ some (text "in")
unfolding simple_trailing_wildcard_prefix
inputs_found = refl

inputs_match : path_matches_pattern (text "inputs") (text "in*") ≡ true
unfolding path_matches_pattern
inputs_match = refl

-- The parts between wildcards are matched at their first place only.
first_place : path_matches_pattern (text "abab") (text "*ab") ≡ false
unfolding path_matches_pattern
first_place = refl

path_matches_pattern-starts_with_example : starts_with (text "in") (text "inputs") ≡ true
path_matches_pattern-starts_with_example =
    path_matches_pattern-starts_with (text "inputs") (text "in*") (text "in") inputs_found
      inputs_match

brown_meant : is_stop_word (text "brown") ≡ false
unfolding is_stop_word
brown_meant = refl

tokens_for_text-fixed_example : tokens_for_text (text "brown") ≡ text "brown" ∷ []
tokens_for_text-fixed_example =
    tokens_for_text-fixed (text "brown")
      ((refl, (refl, (refl, (refl, (refl, tt))))), omega arith, omega arith, brown_meant)

parse-IsToken_example :
    (All IsToken (parse (text "a \"quick fox\" fox")).terms)
    × (Distinct (parse (text "a \"quick fox\" fox")).terms)
    × (All IsPhrase (parse (text "a \"quick fox\" fox")).phrases)
parse-IsToken_example = parse-IsToken (text "a \"quick fox\" fox")

abbrev sample_group : SearchIndexGroupDirectory
sample_group = record {
  min_term = text "ab";
  max_term = text "zz";
  term_info_count = 1;
  fst = no_range;
  term_infos = no_range;
  postings = no_range;
  positions = no_range;
}

abbrev sample_directory : SearchIndexDirectory
sample_directory = record {
  row_count = 1;
  term_key_groups = [];
  term_value_groups = sample_group ∷ [];
}

abbrev fox : SearchPredicate
fox = text_predicate all_fields (record { terms = text "fox" ∷ []; phrases = [] })

-- The token, the separator and the path `p`.
abbrev fox_term : Bytes
fox_term = b'f' ∷ b'o' ∷ b'x' ∷ 0 ∷ b'p' ∷ []

fox_prefix : term_value_prefix (text "fox") ≡ b'f' ∷ b'o' ∷ b'x' ∷ 0 ∷ []
unfolding term_value_prefix
fox_prefix = refl

fox-Holds : Holds fox_term sample_group
fox-Holds =
    ((omega arith, (omega arith, (omega arith, (omega arith, (omega arith, tt))))), refl, refl)

select_search_index_groups_complete_example :
    contains 0
      (selected_groups values (select_search_index_groups (λ value. value) sample_directory fox))
    ≡ true
select_search_index_groups_complete_example =
    select_search_index_groups_complete (λ value. value) sample_directory fox values 0 sample_group
      fox_term refl fox-Holds (rw fox_prefix refl)

abbrev two_entries : Bytes → Option Entries
two_entries bytes = some ((fox_term, 0) ∷ (98 ∷ fox_term, 1) ∷ [])

abbrev loaded : List SearchIndexGroupDictionary
loaded =
    record {
      group_index = 4;
      fst_bytes = 9 ∷ [];
      term_infos =
          record {
            doc_count = 1;
            postings_offset = 0;
            postings_len = 1;
            positions_offset = 0;
            positions_len = 0;
          }
          ∷ [];
    }
    ∷ []

abbrev fox_slices : SearchIndexTermSlices
fox_slices =
    select_search_index_terms two_entries (λ bytes. true) (λ bytes. bytes) (λ bytes. bytes) fox []
      loaded

two_entries_unique :
    (bytes : Bytes) (entries : Entries)
    → two_entries bytes ≡ some entries
    → Distinct (keys_of entries)
two_entries_unique bytes entries e =
    let same : (fox_term, 0) ∷ (98 ∷ fox_term, 1) ∷ [] ≡ entries = cc in
    subst (λ es. Distinct (keys_of es)) same ((refl, tt), (tt, tt))

select_search_index_terms_exact_example :
    (has_slice 4 0 fox_slices.term_value_groups ≡ (
      any_group two_entries
        (chosen (λ bytes. true) (λ bytes. bytes) (λ bytes. bytes) values fox)
        4
        0
        loaded
      && in_table 4 0 loaded))
    × (All (FromGroup loaded) fox_slices.term_value_groups)
select_search_index_terms_exact_example =
    select_search_index_terms_exact two_entries two_entries_unique (λ bytes. true) (λ bytes. bytes)
      (λ bytes. bytes) fox [] loaded values 4 0

abbrev fox_entry : Bytes → Option Entries
fox_entry bytes = some ((fox_term, 0) ∷ [])

fox_entry_unique :
    (bytes : Bytes) (entries : Entries)
    → fox_entry bytes ≡ some entries
    → Distinct (keys_of entries)
fox_entry_unique bytes entries e =
    let same : (fox_term, 0) ∷ [] ≡ entries = cc in
    subst (λ es. Distinct (keys_of es)) same (tt, tt)

abbrev fox_dictionary : SearchIndexGroupDictionary
fox_dictionary = record {
  group_index = 0;
  fst_bytes = 9 ∷ [];
  term_infos =
      record {
        doc_count = 1;
        postings_offset = 0;
        postings_len = 1;
        positions_offset = 0;
        positions_len = 0;
      }
      ∷ [];
}

fox_sliced :
    has_slice 0 0
      (select_search_index_terms fox_entry
        (λ bytes. true)
        (λ bytes. bytes)
        (λ bytes. bytes)
        fox
        []
        (fox_dictionary ∷ [])).term_value_groups
    ≡ true
unfolding select_search_index_terms select_value_terms_for_query select_value_terms_for_token
    select_prefix_terms merge_selected_term term_value_prefix matches_path
fox_sliced = refl

select_search_index_terms-groups_example :
    contains 0
      (selected_groups values (select_search_index_groups (λ bytes. bytes) sample_directory fox))
    ≡ true
select_search_index_terms-groups_example =
    select_search_index_terms-groups fox_entry fox_entry_unique (λ bytes. true) (λ bytes. bytes)
      (λ bytes. bytes) fox sample_directory [] (fox_dictionary ∷ []) values 0 0
      ((sample_group, (refl, (fox-Holds, tt))), tt) fox_sliced
