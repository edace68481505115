-- ===== src/Search/Selection/Terms/Chosen.antt =====
-- The keys that a predicate chooses from the dictionaries of a side, told for one key at a time, and
-- the ordinals of a selection.
use kevindb.Base.{
  ℕ, Bool, false, ◌&&◌, ◌||◌, Option, none, some, List, [], ◌∷◌, ◌==◌, if◌then◌else◌,
}
use kevindb.Base.Text.{Text, text_eq}
use kevindb.Codec.Types.{Bytes}
use kevindb.Search.Terms.{
  starts_with, term_value_key, term_value_prefix, exact_value_token, normalize_like_pattern,
  has_star, simple_trailing_wildcard_prefix, path_matches_pattern, term_path,
}
use kevindb.Search.Query.{
  SearchField, all_fields, exact_path, path_prefix, SearchQuery, SearchPredicate, SearchPredicates,
  nothing, child_and, and, or, not_predicate, text_predicate, exact_value, json_key, matches_path,
}
use kevindb.Search.Selection.Wanted.{Side, keys, values}
use kevindb.Search.Selection.Terms.{SearchIndexGroupDictionary, Selected, Entries, or_default}

-- An ordinal of a group is selected.
abbrev pub has_ordinal : ℕ → List (ℕ × Bool) → Bool
has_ordinal ordinal [] = false
has_ordinal ordinal ((n, positions) ∷ ordinals) = (n == ordinal) || has_ordinal ordinal ordinals

abbrev pub has : ℕ → ℕ → Selected → Bool
has group_index ordinal [] = false
has group_index ordinal ((n, ordinals) ∷ selected) =
    ((n == group_index) && has_ordinal ordinal ordinals) || has group_index ordinal selected

-- A key that passes the test has the ordinal.
abbrev pub any_entry : (Bytes → Bool) → ℕ → Entries → Bool
any_entry test ordinal [] = false
any_entry test ordinal ((key, n) ∷ entries) =
    (test key && (n == ordinal)) || any_entry test ordinal entries

abbrev pub keys_of : Entries → List Bytes
keys_of [] = []
keys_of ((key, n) ∷ entries) = key ∷ keys_of entries

module _ (map_new : Bytes → Option Entries) where
  -- A dictionary of that index has such a key; one whose FST is refused has no keys.
  abbrev pub any_group : (Bytes → Bool) → ℕ → ℕ → List SearchIndexGroupDictionary → Bool
  any_group test group_index ordinal [] = false
  any_group test group_index ordinal (group ∷ groups) =
      ((group.group_index == group_index)
        && any_entry test ordinal (or_default [] (map_new group.fst_bytes)))
      || any_group test group_index ordinal groups

module _ (is_utf8 : Bytes → Bool) (lossy : Bytes → Bytes) (hex_encode : Bytes → Bytes) where
  -- The key begins with the prefix, and its path is that of the field.
  abbrev pub prefix_chosen : Bytes → SearchField → Bytes → Bool
  prefix_chosen prefix field key =
      is_utf8 prefix && (starts_with prefix key && matches_path field (lossy (term_path key)))

  abbrev pub token_chosen : SearchField → Text → Bytes → Bool
  token_chosen (exact_path path) token key = text_eq key (term_value_key token path)
  token_chosen all_fields token key = prefix_chosen (term_value_prefix token) all_fields key
  token_chosen (path_prefix path) token key =
      prefix_chosen (term_value_prefix token) (path_prefix path) key

  abbrev pub any_token_chosen : SearchField → List Text → Bytes → Bool
  any_token_chosen field [] key = false
  any_token_chosen field (token ∷ tokens) key =
      token_chosen field token key || any_token_chosen field tokens key

  abbrev pub any_phrase_chosen : SearchField → List (List Text) → Bytes → Bool
  any_phrase_chosen field [] key = false
  any_phrase_chosen field (phrase ∷ phrases) key =
      any_token_chosen field phrase key || any_phrase_chosen field phrases key

  abbrev pub query_chosen : Side → SearchField → SearchQuery → Bytes → Bool
  query_chosen keys field query key = false
  query_chosen values field query key =
      any_token_chosen field query.terms key || any_phrase_chosen field query.phrases key

  abbrev pub value_chosen : Side → SearchField → Text → Bytes → Bool
  value_chosen keys field token key = false
  value_chosen values field token key = token_chosen field token key

  abbrev pub starred_chosen : Bytes → Option Bytes → Bytes → Bool
  starred_chosen pattern (some prefix) key = prefix_chosen prefix all_fields key
  starred_chosen pattern none key = is_utf8 key && path_matches_pattern key pattern

  abbrev pub pattern_chosen : Bytes → Bytes → Bool
  pattern_chosen pattern key =
      if has_star pattern
      then starred_chosen pattern (simple_trailing_wildcard_prefix pattern) key
      else text_eq key pattern

  abbrev pub key_chosen : Side → Bytes → Bytes → Bool
  key_chosen keys pattern key = pattern_chosen (normalize_like_pattern pattern) key
  key_chosen values pattern key = false

  abbrev mutual
    pub chosen : Side → SearchPredicate → Bytes → Bool
    chosen side (and children) key = any_chosen side children key
    chosen side (or children) key = any_chosen side children key
    chosen side (not_predicate child) key = chosen side child key
    chosen side (text_predicate field query) key = query_chosen side field query key
    chosen side (exact_value field value) key =
        value_chosen side field (exact_value_token hex_encode value) key
    chosen side (json_key pattern) key = key_chosen side pattern key

    pub any_chosen : Side → SearchPredicates → Bytes → Bool
    any_chosen side nothing key = false
    any_chosen side (child_and child children) key =
        chosen side child key || any_chosen side children key
