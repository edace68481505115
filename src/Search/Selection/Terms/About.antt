-- ===== src/Search/Selection/Terms/About.antt =====
-- Each key that a predicate chooses is one of its terms.
use kevindb.Base.{
  ◌≡◌, refl, arith, inl, inr, Bool, true, false, ◌||◌, Option, none, some, List, [], ◌∷◌,
  Bool-cases,
}
use kevindb.Base.Text.{Text}
use kevindb.Codec.Types.{Bytes}
use kevindb.Search.Terms.{
  has_star, normalize_like_pattern, simple_trailing_wildcard_prefix, exact_value_token,
  path_matches_pattern, term_value_prefix, starts_with,
}
use kevindb.Search.Terms.Trailing.{starts_with-path_matches_pattern}
use kevindb.Search.Query.{
  SearchField, all_fields, exact_path, path_prefix, SearchQuery, SearchPredicate, SearchPredicates,
  nothing, child_and, and, or, not_predicate, text_predicate, exact_value, json_key,
}
use kevindb.Search.Selection.Wanted.{
  Side, keys, values, token_wanted, any_token_wanted, any_phrase_wanted, text_wanted, value_wanted,
  key_wanted, wanted, any_wanted,
}
use kevindb.Search.Selection.Terms.Chosen.{
  prefix_chosen, token_chosen, any_token_chosen, any_phrase_chosen, query_chosen, value_chosen,
  starred_chosen, pattern_chosen, key_chosen, chosen, any_chosen,
}

or_mono :
    (a b c d : Bool)
    → (a ≡ true → c ≡ true)
    → (b ≡ true → d ≡ true)
    → (a || b) ≡ true
    → (c || d) ≡ true
or_mono true b c d f g h = rw (f refl) refl
or_mono false b true d f g h = refl
or_mono false b false d f g h = g h

module _ (is_utf8 : Bytes → Bool) (lossy : Bytes → Bytes) (hex_encode : Bytes → Bytes)
    (key : Bytes) where
  prefix_chosen-starts_with :
      (prefix : Bytes) (field : SearchField)
      → prefix_chosen is_utf8 lossy hex_encode prefix field key ≡ true
      → starts_with prefix key ≡ true
  prefix_chosen-starts_with prefix field h = ground arith

  token-wanted :
      (field : SearchField) (token : Text)
      → token_chosen is_utf8 lossy hex_encode field token key ≡ true
      → token_wanted field token key ≡ true
  token-wanted (exact_path path) token h = h
  token-wanted all_fields token h = prefix_chosen-starts_with (term_value_prefix token) all_fields h
  token-wanted (path_prefix path) token h =
      prefix_chosen-starts_with (term_value_prefix token) (path_prefix path) h

  tokens-wanted :
      (field : SearchField) (tokens : List Text)
      → any_token_chosen is_utf8 lossy hex_encode field tokens key ≡ true
      → any_token_wanted field tokens key ≡ true
  tokens-wanted field [] h = h
  tokens-wanted field (token ∷ tokens) h =
      or_mono _ _ _ _ (token-wanted field token) (tokens-wanted field tokens) h

  phrases-wanted :
      (field : SearchField) (phrases : List (List Text))
      → any_phrase_chosen is_utf8 lossy hex_encode field phrases key ≡ true
      → any_phrase_wanted field phrases key ≡ true
  phrases-wanted field [] h = h
  phrases-wanted field (phrase ∷ phrases) h =
      or_mono _ _ _ _ (tokens-wanted field phrase) (phrases-wanted field phrases) h

  starred-wanted :
      (pattern : Bytes) (prefix : Option Bytes)
      → simple_trailing_wildcard_prefix pattern ≡ prefix
      → starred_chosen is_utf8 lossy hex_encode pattern prefix key ≡ true
      → path_matches_pattern key pattern ≡ true
  starred-wanted pattern (some prefix) e h =
      starts_with-path_matches_pattern key pattern prefix e
        (prefix_chosen-starts_with prefix all_fields h)
  starred-wanted pattern none e h = ground arith

  pattern-wanted :
      (pattern : Bytes)
      → pattern_chosen is_utf8 lossy hex_encode pattern key ≡ true
      → path_matches_pattern key pattern ≡ true
  unfolding path_matches_pattern
  pattern-wanted pattern h = elim (Bool-cases (has_star pattern)) [
    | inl starred ↦
        starred-wanted pattern (simple_trailing_wildcard_prefix pattern) refl (rw starred at h)
    | inr plain ↦ rw (path_matches_pattern, plain) (rw plain at h)
  ]

  query-wanted :
      (side : Side) (field : SearchField) (query : SearchQuery)
      → query_chosen is_utf8 lossy hex_encode side field query key ≡ true
      → text_wanted side field query.terms query.phrases key ≡ true
  query-wanted keys field query h = h
  query-wanted values field query h =
      or_mono _ _ _ _ (tokens-wanted field query.terms) (phrases-wanted field query.phrases) h

  value-wanted :
      (side : Side) (field : SearchField) (token : Text)
      → value_chosen is_utf8 lossy hex_encode side field token key ≡ true
      → value_wanted side field token key ≡ true
  value-wanted keys field token h = h
  value-wanted values field token h = token-wanted field token h

  key-wanted :
      (side : Side) (pattern : Bytes)
      → key_chosen is_utf8 lossy hex_encode side pattern key ≡ true
      → key_wanted side pattern key ≡ true
  key-wanted keys pattern h = pattern-wanted (normalize_like_pattern pattern) h
  key-wanted values pattern h = h

  module _ (side : Side) where
    mutual
      pub chosen-wanted :
          (predicate : SearchPredicate)
          → chosen is_utf8 lossy hex_encode side predicate key ≡ true
          → wanted hex_encode side predicate key ≡ true
      chosen-wanted (and children) h = children-wanted children h
      chosen-wanted (or children) h = children-wanted children h
      chosen-wanted (not_predicate child) h = chosen-wanted child h
      chosen-wanted (text_predicate field query) h = query-wanted side field query h
      chosen-wanted (exact_value field value) h =
          value-wanted side field (exact_value_token hex_encode value) h
      chosen-wanted (json_key pattern) h = key-wanted side pattern h

      children-wanted :
          (children : SearchPredicates)
          → any_chosen is_utf8 lossy hex_encode side children key ≡ true
          → any_wanted hex_encode side children key ≡ true
      children-wanted nothing h = h
      children-wanted (child_and child children) h =
          or_mono _ _ _ _ (chosen-wanted child) (children-wanted children) h
