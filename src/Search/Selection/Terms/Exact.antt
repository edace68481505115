-- ===== src/Search/Selection/Terms/Exact.antt =====
-- What the selection of an exact key, a prefix, a pattern, a token or a query adds.
use kevindb.Base.{
  ℕ, ◌≡◌, refl, Bool, true, false, ◌&&◌, ◌||◌, not, if◌then◌else◌, Option, none, some, List, [],
  ◌∷◌, ltb, length,
}
use kevindb.Base.Text.{Text, text_eq}
use kevindb.Codec.Types.{Bytes}
use kevindb.Search.Terms.{
  term_value_key, term_value_prefix, normalize_like_pattern, has_star,
  simple_trailing_wildcard_prefix,
}
use kevindb.Search.Query.{SearchField, all_fields, exact_path, path_prefix, SearchQuery}
use kevindb.Search.Query.Tokens.{Distinct}
use kevindb.Search.Selection.Wanted.{values}
use kevindb.Search.Selection.Terms.{
  SearchIndexGroupDictionary, Selected, Entries, select_exact_terms, prefix_key,
  select_prefix_terms, pattern_key, select_key_terms, select_key_terms_for_pattern,
  select_value_terms_for_token, select_value_terms_for_tokens, select_value_terms_for_phrases,
  select_value_terms_for_query,
}
use kevindb.Search.Selection.Terms.Chosen.{
  has, keys_of, any_group, starred_chosen, prefix_chosen, token_chosen, any_token_chosen,
  any_phrase_chosen, query_chosen, pattern_chosen,
}
use kevindb.Search.Selection.Terms.Merged.{
  or_swap, merge_entries-has, merge_found-has, any_group-false, any_group-or, for_groups-has,
}

module _ (map_new : Bytes → Option Entries)
    (unique : (bytes : Bytes) (entries : Entries)
      → map_new bytes ≡ some entries
      → Distinct (keys_of entries))
    (i o : ℕ) (groups : List SearchIndexGroupDictionary) where
  -- The selection gains the ordinals whose keys pass the test.
  abbrev Adds : (Bytes → Bool) → (Selected → Selected) → Type 0
  Adds test select =
      (selected : Selected)
      → has i o (select selected) ≡ (any_group map_new test i o groups || has i o selected)

  idle-Adds : Adds (λ key. false) (λ selected. selected)
  idle-Adds selected = rw (any_group-false map_new i o groups) refl

  then-Adds :
      (f g : Bytes → Bool) (first second : Selected → Selected)
      → Adds f first
      → Adds g second
      → Adds (λ key. f key || g key) (λ selected. second (first selected))
  then-Adds f g first second h k selected =
      rw (k (first selected), h selected, any_group-or map_new i o f g groups)
        (or_swap (any_group map_new f i o groups) (any_group map_new g i o groups)
          (has i o selected))

  guarded-Adds :
      (b : Bool) (test : Bytes → Bool) (select : Selected → Selected)
      → Adds test select
      → Adds (λ key. b && test key) (λ selected. if not b then selected else select selected)
  guarded-Adds true test select h = h
  guarded-Adds false test select h = idle-Adds

  branch-Adds :
      (b : Bool) (f g : Bytes → Bool) (first second : Selected → Selected)
      → Adds f first
      → Adds g second
      → Adds
          (λ key. if b then g key else f key)
          (λ selected. if not b then first selected else second selected)
  branch-Adds true f g first second h k = k
  branch-Adds false f g first second h k = h

  exact-Adds :
      (key : Bytes) (positions : Bool)
      → Adds (λ k. text_eq k key) (select_exact_terms map_new groups key positions)
  unfolding select_exact_terms
  exact-Adds key positions =
      for_groups-has map_new i o _ (λ k. text_eq k key)
        (λ g bytes entries selected opened.
          merge_found-has i o g positions key entries selected (unique bytes entries opened))
        groups

  module _ (is_utf8 : Bytes → Bool) (lossy : Bytes → Bytes) (hex_encode : Bytes → Bytes) where
    prefix-Adds :
        (prefix : Bytes) (field : SearchField) (positions : Bool)
        → Adds
            (prefix_chosen is_utf8 lossy hex_encode prefix field)
            (select_prefix_terms map_new is_utf8 lossy hex_encode groups prefix field positions)
    unfolding select_prefix_terms
    prefix-Adds prefix field positions =
        guarded-Adds (is_utf8 prefix) (prefix_key map_new is_utf8 lossy hex_encode prefix field) _ (
          for_groups-has map_new i o _ (prefix_key map_new is_utf8 lossy hex_encode prefix field)
            (λ g bytes entries selected opened.
              merge_entries-has i o g (prefix_key map_new is_utf8 lossy hex_encode prefix field)
                positions entries selected)
            groups)

    starred-Adds :
        (pattern : Bytes) (prefix : Option Bytes)
        → Adds
            (starred_chosen is_utf8 lossy hex_encode pattern prefix)
            (select_key_terms map_new is_utf8 lossy hex_encode groups pattern prefix)
    starred-Adds pattern (some prefix) = prefix-Adds prefix all_fields false
    starred-Adds pattern none =
        for_groups-has map_new i o _ (pattern_key map_new is_utf8 lossy hex_encode pattern)
          (λ g bytes entries sel opened.
            merge_entries-has i o g (pattern_key map_new is_utf8 lossy hex_encode pattern) false
              entries sel)
          groups

    pub pattern-Adds :
        (like_pattern : Bytes)
        → Adds
            (pattern_chosen is_utf8 lossy hex_encode (normalize_like_pattern like_pattern))
            (select_key_terms_for_pattern map_new is_utf8 lossy hex_encode groups like_pattern)
    unfolding select_key_terms_for_pattern
    pattern-Adds like_pattern =
        let pattern = normalize_like_pattern like_pattern in
        let prefix = simple_trailing_wildcard_prefix pattern in
        branch-Adds (has_star pattern) (λ key. text_eq key pattern)
          (starred_chosen is_utf8 lossy hex_encode pattern prefix) _ _ (exact-Adds pattern false)
          (starred-Adds pattern prefix)

    pub token-Adds :
        (field : SearchField) (token : Text) (positions : Bool)
        → Adds (token_chosen is_utf8 lossy hex_encode field token) (
            select_value_terms_for_token map_new is_utf8 lossy hex_encode groups field token
              positions)
    unfolding select_value_terms_for_token
    token-Adds (exact_path path) token positions = exact-Adds (term_value_key token path) positions
    token-Adds all_fields token positions =
        prefix-Adds (term_value_prefix token) all_fields positions
    token-Adds (path_prefix path) token positions =
        prefix-Adds (term_value_prefix token) (path_prefix path) positions

    tokens-Adds :
        (field : SearchField) (tokens : List Text) (positions : Bool)
        → Adds (any_token_chosen is_utf8 lossy hex_encode field tokens) (
            select_value_terms_for_tokens map_new is_utf8 lossy hex_encode groups field tokens
              positions)
    tokens-Adds field [] positions = idle-Adds
    tokens-Adds field (token ∷ tokens) positions =
        then-Adds (token_chosen is_utf8 lossy hex_encode field token)
          (any_token_chosen is_utf8 lossy hex_encode field tokens) _ _
          (token-Adds field token positions) (tokens-Adds field tokens positions)

    phrases-Adds :
        (field : SearchField) (phrases : List (List Text))
        → Adds
            (any_phrase_chosen is_utf8 lossy hex_encode field phrases)
            (select_value_terms_for_phrases map_new is_utf8 lossy hex_encode groups field phrases)
    phrases-Adds field [] = idle-Adds
    phrases-Adds field (phrase ∷ phrases) =
        then-Adds (any_token_chosen is_utf8 lossy hex_encode field phrase)
          (any_phrase_chosen is_utf8 lossy hex_encode field phrases) _ _
          (tokens-Adds field phrase (ltb 1 (length phrase))) (phrases-Adds field phrases)

    pub query-Adds :
        (field : SearchField) (query : SearchQuery)
        → Adds
            (query_chosen is_utf8 lossy hex_encode values field query)
            (select_value_terms_for_query map_new is_utf8 lossy hex_encode groups field query)
    unfolding select_value_terms_for_query
    query-Adds field query =
        then-Adds (any_token_chosen is_utf8 lossy hex_encode field query.terms)
          (any_phrase_chosen is_utf8 lossy hex_encode field query.phrases) _ _
          (tokens-Adds field query.terms false) (phrases-Adds field query.phrases)
