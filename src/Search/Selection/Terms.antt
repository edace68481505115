-- ===== src/Search/Selection/Terms.antt =====
-- `select_terms_for_predicate` and the functions under it. Of the fst crate: `map_new` is `Map::new`,
-- by the keys of the map in order, each with its value; `get` and `search` with a `starts_with`
-- automaton are lookups in that list. `from_utf8` and `from_utf8_lossy` are parameters.
pub mod About
pub mod Chosen
pub mod Exact
pub mod Merged
pub mod Predicate
use kevindb.Base.{
  ℕ, Bool, false, ◌&&◌, ◌||◌, not, Option, none, some, List, [], ◌∷◌, ltb, length, if◌then◌else◌,
}
use kevindb.Base.Maps.{lookup, insert}
use kevindb.Base.Text.{Text, text_eq}
use kevindb.Base.Result.{Result, ok, err, ◌>>=◌}
use kevindb.Codec.Types.{Bytes, Error, invalid_fst, SearchIndexTermInfo}
use kevindb.Codec.TermInfos.{decode_search_term_infos}
use kevindb.Search.Terms.{
  term_value_key, term_value_prefix, exact_value_token, normalize_like_pattern, has_star,
  simple_trailing_wildcard_prefix, path_matches_pattern, starts_with, term_path,
}
use kevindb.Search.Query.{
  SearchField, all_fields, exact_path, path_prefix, SearchQuery, SearchPredicate, SearchPredicates,
  nothing, child_and, and, or, not_predicate, text_predicate, exact_value, json_key, matches_path,
}

pub record SearchIndexGroupDictionary : Type 0 where
  pub group_index : ℕ
  pub fst_bytes : Bytes
  pub term_infos : List SearchIndexTermInfo

-- Whether the positions are wanted, by group index and ordinal.
abbrev pub Selected : Type 0
Selected = List (ℕ × List (ℕ × Bool))

abbrev pub or_default {ℓ} : {A : Type ℓ} → A → Option A → A
or_default a none = a
or_default a (some b) = b

unfoldable pub merge_selected_term : Selected → ℕ → ℕ → Bool → Selected
merge_selected_term selected group_index ordinal include_positions =
    let ordinals = or_default [] (lookup group_index selected) in
    let before = or_default false (lookup ordinal ordinals) in
    insert group_index (insert ordinal (before || include_positions) ordinals) selected

abbrev pub Entries : Type 0
Entries = List (Bytes × ℕ)

-- `while let Some((key, ordinal)) = stream.next()`, with a test on the key.
abbrev pub merge_entries : (Bytes → Bool) → ℕ → Bool → Entries → Selected → Selected
merge_entries test group_index include_positions [] selected = selected
merge_entries test group_index include_positions ((key, ordinal) ∷ entries) selected =
    merge_entries test group_index include_positions entries (
      if test key
      then merge_selected_term selected group_index ordinal include_positions
      else selected)

-- `map.get(key)`
abbrev pub get : Bytes → Entries → Option ℕ
get key [] = none
get key ((k, ordinal) ∷ entries) = if text_eq k key then some ordinal else get key entries

abbrev pub merge_found : ℕ → Bool → Option ℕ → Selected → Selected
merge_found group_index include_positions none selected = selected
merge_found group_index include_positions (some ordinal) selected =
    merge_selected_term selected group_index ordinal include_positions

module _ (map_new : Bytes → Option Entries) where
  unfoldable pub decode_search_group_dictionary :
      ℕ → Bytes → Bytes → ℕ → Result Error SearchIndexGroupDictionary
  decode_search_group_dictionary group_index fst_bytes term_info_bytes term_info_count =
      elim (map_new fst_bytes) [
        | none ↦ err invalid_fst
        | some entries ↦ (do
          term_infos ← decode_search_term_infos term_info_bytes term_info_count
          ok (record { group_index = group_index; fst_bytes = fst_bytes; term_infos = term_infos }))
      ]

  -- `for group in groups`, past the groups whose FST is refused.
  abbrev pub for_groups :
      (ℕ → Entries → Selected → Selected) → List SearchIndexGroupDictionary → Selected → Selected
  for_groups visit [] selected = selected
  for_groups visit (group ∷ groups) selected =
      for_groups visit groups (elim (map_new group.fst_bytes) [
        | none ↦ selected
        | some entries ↦ visit group.group_index entries selected
      ])

  unfoldable pub select_exact_terms :
      List SearchIndexGroupDictionary → Bytes → Bool → Selected → Selected
  select_exact_terms groups key include_positions =
      for_groups
        (λ group_index entries. merge_found group_index include_positions (get key entries)) groups

  module _ (is_utf8 : Bytes → Bool) (lossy : Bytes → Bytes) (hex_encode : Bytes → Bytes) where
    -- The test on a key of the stream: the automaton's prefix, then the field.
    abbrev pub prefix_key : Bytes → SearchField → Bytes → Bool
    prefix_key prefix field key =
        starts_with prefix key && matches_path field (lossy (term_path key))

    unfoldable pub select_prefix_terms :
        List SearchIndexGroupDictionary → Bytes → SearchField → Bool → Selected → Selected
    select_prefix_terms groups prefix field include_positions selected =
        if not (is_utf8 prefix)
        then selected
        else for_groups
            (λ group_index. merge_entries (prefix_key prefix field) group_index include_positions)
            groups selected

    abbrev pub pattern_key : Bytes → Bytes → Bool
    pattern_key pattern key = is_utf8 key && path_matches_pattern key pattern

    abbrev pub select_key_terms :
        List SearchIndexGroupDictionary → Bytes → Option Bytes → Selected → Selected
    select_key_terms groups pattern (some prefix) =
        select_prefix_terms groups prefix all_fields false
    select_key_terms groups pattern none =
        for_groups (λ group_index. merge_entries (pattern_key pattern) group_index false) groups

    unfoldable pub select_key_terms_for_pattern :
        List SearchIndexGroupDictionary → Bytes → Selected → Selected
    select_key_terms_for_pattern groups like_pattern selected =
        let pattern = normalize_like_pattern like_pattern in
        if not (has_star pattern)
        then select_exact_terms groups pattern false selected
        else select_key_terms groups pattern (simple_trailing_wildcard_prefix pattern) selected

    unfoldable pub select_value_terms_for_token :
        List SearchIndexGroupDictionary → SearchField → Text → Bool → Selected → Selected
    select_value_terms_for_token groups (exact_path path) token include_positions =
        select_exact_terms groups (term_value_key token path) include_positions
    select_value_terms_for_token groups all_fields token include_positions =
        select_prefix_terms groups (term_value_prefix token) all_fields include_positions
    select_value_terms_for_token groups (path_prefix path) token include_positions =
        select_prefix_terms groups (term_value_prefix token) (path_prefix path) include_positions

    abbrev pub select_value_terms_for_tokens :
        List SearchIndexGroupDictionary → SearchField → List Text → Bool → Selected → Selected
    select_value_terms_for_tokens groups field [] include_positions selected = selected
    select_value_terms_for_tokens groups field (token ∷ tokens) include_positions selected =
        select_value_terms_for_tokens groups field tokens include_positions
          (select_value_terms_for_token groups field token include_positions selected)

    abbrev pub select_value_terms_for_phrases :
        List SearchIndexGroupDictionary → SearchField → List (List Text) → Selected → Selected
    select_value_terms_for_phrases groups field [] selected = selected
    select_value_terms_for_phrases groups field (phrase ∷ phrases) selected =
        select_value_terms_for_phrases groups field phrases
          (select_value_terms_for_tokens groups field phrase (ltb 1 (length phrase)) selected)

    unfoldable pub select_value_terms_for_query :
        List SearchIndexGroupDictionary → SearchField → SearchQuery → Selected → Selected
    select_value_terms_for_query groups field query selected =
        select_value_terms_for_phrases groups field query.phrases
          (select_value_terms_for_tokens groups field query.terms false selected)

    -- On the two maps of selected terms, of the key groups and of the value groups.
    abbrev mutual
      pub select_terms_for_predicate :
          SearchPredicate
          → List SearchIndexGroupDictionary
          → List SearchIndexGroupDictionary
          → Selected × Selected
          → Selected × Selected
      select_terms_for_predicate (and children) key_groups value_groups selected =
          select_terms_for_children children key_groups value_groups selected
      select_terms_for_predicate (or children) key_groups value_groups selected =
          select_terms_for_children children key_groups value_groups selected
      select_terms_for_predicate (not_predicate child) key_groups value_groups selected =
          select_terms_for_predicate child key_groups value_groups selected
      select_terms_for_predicate (text_predicate field query) key_groups value_groups selected =
          (selected.0, select_value_terms_for_query value_groups field query (selected.1))
      select_terms_for_predicate (exact_value field value) key_groups value_groups selected = (
        selected.0,
        select_value_terms_for_token value_groups field (exact_value_token hex_encode value) false
            (selected.1),
      )
      select_terms_for_predicate (json_key pattern) key_groups value_groups selected =
          (select_key_terms_for_pattern key_groups pattern (selected.0), selected.1)

      pub select_terms_for_children :
          SearchPredicates
          → List SearchIndexGroupDictionary
          → List SearchIndexGroupDictionary
          → Selected × Selected
          → Selected × Selected
      select_terms_for_children nothing key_groups value_groups selected = selected
      select_terms_for_children (child_and child children) key_groups value_groups selected =
          select_terms_for_children children key_groups value_groups
            (select_terms_for_predicate child key_groups value_groups selected)
