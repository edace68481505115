-- ===== src/Search/Selection/Groups/Complete.antt =====
-- The selected groups and the terms that a predicate is about.
use kevindb.Base.{
  ℕ, zero, suc, ◌+◌, ◌≡◌, refl, subst, arith, inl, inr, Bool, true, false, some, List, [], ◌∷◌, ltb,
  Bool-cases, Option-cases, length, get_elem?, All,
}
use kevindb.Base.Maps.{insert_set, contains}
use kevindb.Base.Text.{Text, text_eq, text_eq→eq}
use kevindb.Codec.Types.{Bytes, IsByte, SearchIndexGroupDirectory, SearchIndexDirectory}
use kevindb.Search.Terms.{
  leb_bytes, min_max_may_contain_exact, exact_value_token, normalize_like_pattern, has_star,
  path_matches_pattern, simple_trailing_wildcard_prefix, term_value_prefix, term_value_key,
}
use kevindb.Search.Terms.Pruning.{min_max_overlaps_prefix-member}
use kevindb.Search.Terms.Patterns.{path_matches_pattern-starts_with}
use kevindb.Search.Query.{
  SearchField, all_fields, exact_path, path_prefix, SearchQuery, SearchPredicate, SearchPredicates,
  nothing, child_and, and, or, not_predicate, text_predicate, exact_value, json_key,
}
use kevindb.Search.Selection.Wanted.{
  Side, keys, values, token_wanted, any_token_wanted, any_phrase_wanted, text_wanted, value_wanted,
  key_wanted, wanted, any_wanted,
}
use kevindb.Search.Selection.Groups.{
  SearchIndexGroupSelection, no_groups, insert_where, key_group_test, value_group_test,
  may_contain_exact, select_key_groups_for_pattern, select_value_groups_for_token,
  select_value_groups_for_tokens, select_value_groups_for_phrases, select_value_groups_for_query,
  select_groups_for_predicate, select_groups_for_children, select_search_index_groups,
}
use kevindb.Search.Selection.Groups.Keeps.{
  selected_groups, contains-insert_set, insert_where-keeps, tokens-Keeps, phrases-Keeps,
  children-Keeps,
}

clash : {b : Bool} → b ≡ true → b ≡ false → ⊥
clash e f = cc

insert_where-finds :
    (test : SearchIndexGroupDirectory → Bool) (j from : ℕ) (groups : List SearchIndexGroupDirectory)
    (set : List ℕ) (group : SearchIndexGroupDirectory)
    → get_elem? groups j ≡ some group
    → test group ≡ true
    → contains (from + j) (insert_where test from groups set) ≡ true
insert_where-finds test j from [] set group h k = cc
insert_where-finds test zero from (first ∷ groups) set group h k =
    let same : first ≡ group = cc in
    let here : from + 0 ≡ from = omega arith in
    rw (here, same, k)
      (insert_where-keeps test from (from + 1) groups (insert_set from set)
        (rw (contains-insert_set from from set) (ground arith)))
insert_where-finds test (suc j) from (first ∷ groups) set group h k =
    let later : from + suc j ≡ from + 1 + j = omega arith in
    rw later (insert_where-finds test j (from + 1) groups _ group h k)

finds_from_first :
    (test : SearchIndexGroupDirectory → Bool) (j : ℕ) (groups : List SearchIndexGroupDirectory)
    (set : List ℕ) (group : SearchIndexGroupDirectory)
    → get_elem? groups j ≡ some group
    → test group ≡ true
    → contains j (insert_where test 0 groups set) ≡ true
finds_from_first test j groups set group h k =
    let e : 0 + j ≡ j = omega arith in rw e at (insert_where-finds test j 0 groups set group h k)

-- A group whose bounds hold a term.
abbrev pub Holds : Bytes → SearchIndexGroupDirectory → Type 0
Holds term group =
    (All IsByte term)
    × (leb_bytes group.min_term term ≡ true)
    × (leb_bytes term group.max_term ≡ true)

Holds-exact :
    (term key : Bytes) (group : SearchIndexGroupDirectory)
    → Holds term group
    → text_eq term key ≡ true
    → may_contain_exact key group ≡ true
unfolding min_max_may_contain_exact
Holds-exact term key group h same =
    subst (λ k. may_contain_exact k group ≡ true) (text_eq→eq term key same) (rw (h.1, h.2) refl)

Holds-value :
    (field : SearchField) (token : Text) (term : Bytes) (group : SearchIndexGroupDirectory)
    → Holds term group
    → token_wanted field token term ≡ true
    → value_group_test field token group ≡ true
Holds-value (exact_path path) token term group h w =
    Holds-exact term (term_value_key token path) group h w
Holds-value all_fields token term group h w =
    min_max_overlaps_prefix-member group.min_term group.max_term (term_value_prefix token) term h.0
      h.1 h.2 w
Holds-value (path_prefix prefix) token term group h w =
    min_max_overlaps_prefix-member group.min_term group.max_term (term_value_prefix token) term h.0
      h.1 h.2 w

Holds-key :
    (pattern term : Bytes) (group : SearchIndexGroupDirectory)
    → Holds term group
    → path_matches_pattern term pattern ≡ true
    → key_group_test pattern group ≡ true
unfolding path_matches_pattern
Holds-key pattern term group h w = elim (Bool-cases (has_star pattern)) [
  | inr starless ↦
      rw starless (Holds-exact term pattern group h (rw (path_matches_pattern, starless) at w))
  | inl starred ↦ rw starred (elim (Option-cases (simple_trailing_wildcard_prefix pattern)) [
    | inl other ↦ rw other refl
    | inr (prefix, found) ↦ rw found (
        min_max_overlaps_prefix-member group.min_term group.max_term prefix term h.0 h.1 h.2
          (path_matches_pattern-starts_with term pattern prefix found w))
  ])
]

abbrev pub groups_of : Side → SearchIndexDirectory → List SearchIndexGroupDirectory
groups_of keys directory = directory.term_key_groups
groups_of values directory = directory.term_value_groups

-- The group with that index is selected afterwards.
abbrev Finds : Side → ℕ → (SearchIndexGroupSelection → SearchIndexGroupSelection) → Type 0
Finds side i select =
    (selection : SearchIndexGroupSelection)
    → contains i (selected_groups side (select selection)) ≡ true

module _ (i : ℕ) (directory : SearchIndexDirectory) (term : Bytes)
    (group : SearchIndexGroupDirectory) (holds : Holds term group) where
  pattern-Finds :
      (side : Side) (pattern : Bytes)
      → get_elem? (groups_of side directory) i ≡ some group
      → key_wanted side pattern term ≡ true
      → Finds side i (select_key_groups_for_pattern directory pattern)
  unfolding select_key_groups_for_pattern
  pattern-Finds keys pattern place w selection =
      finds_from_first (key_group_test (normalize_like_pattern pattern)) i directory.term_key_groups
        selection.term_key_groups group place
        (Holds-key (normalize_like_pattern pattern) term group holds w)
  pattern-Finds values pattern place w selection = absurd (clash w refl)

  token-Finds :
      (side : Side) (field : SearchField) (token : Text) (positions : Bool)
      → get_elem? (groups_of side directory) i ≡ some group
      → value_wanted side field token term ≡ true
      → Finds side i (select_value_groups_for_token directory field token positions)
  unfolding select_value_groups_for_token
  token-Finds keys field token positions place w selection = absurd (clash w refl)
  token-Finds values field token positions place w selection =
      finds_from_first (value_group_test field token) i directory.term_value_groups
        selection.term_value_groups group place (Holds-value field token term group holds w)

  tokens-Finds :
      (field : SearchField) (tokens : List Text) (positions : Bool)
      → get_elem? directory.term_value_groups i ≡ some group
      → any_token_wanted field tokens term ≡ true
      → Finds values i (select_value_groups_for_tokens directory field tokens positions)
  tokens-Finds field [] positions place w selection = absurd (clash w refl)
  tokens-Finds field (token ∷ tokens) positions place w selection =
      elim (Bool-cases (token_wanted field token term)) [
        | inl first ↦
            tokens-Keeps values i directory field tokens positions _
              (token-Finds values field token positions place first selection)
        | inr other ↦ tokens-Finds field tokens positions place (rw other at w) _
      ]

  phrases-Finds :
      (field : SearchField) (phrases : List (List Text))
      → get_elem? directory.term_value_groups i ≡ some group
      → any_phrase_wanted field phrases term ≡ true
      → Finds values i (select_value_groups_for_phrases directory field phrases)
  phrases-Finds field [] place w selection = absurd (clash w refl)
  phrases-Finds field (phrase ∷ phrases) place w selection =
      elim (Bool-cases (any_token_wanted field phrase term)) [
        | inl first ↦
            phrases-Keeps values i directory field phrases _
              (tokens-Finds field phrase (ltb 1 (length phrase)) place first selection)
        | inr other ↦ phrases-Finds field phrases place (rw other at w) _
      ]

  query-Finds :
      (side : Side) (field : SearchField) (query : SearchQuery)
      → get_elem? (groups_of side directory) i ≡ some group
      → text_wanted side field query.terms query.phrases term ≡ true
      → Finds side i (select_value_groups_for_query directory field query)
  unfolding select_value_groups_for_query
  query-Finds keys field query place w selection = absurd (clash w refl)
  query-Finds values field query place w selection =
      elim (Bool-cases (any_token_wanted field query.terms term)) [
        | inl first ↦
            phrases-Keeps values i directory field query.phrases _
              (tokens-Finds field query.terms false place first selection)
        | inr other ↦ phrases-Finds field query.phrases place (rw other at w) _
      ]

  module _ (hex_encode : Bytes → Bytes) (side : Side)
      (place : get_elem? (groups_of side directory) i ≡ some group) where
    mutual
      predicate-Finds :
          (predicate : SearchPredicate)
          → wanted hex_encode side predicate term ≡ true
          → Finds side i (select_groups_for_predicate hex_encode directory predicate)
      predicate-Finds (and children) w selection = children-Finds children w selection
      predicate-Finds (or children) w selection = children-Finds children w selection
      predicate-Finds (not_predicate child) w selection = predicate-Finds child w selection
      predicate-Finds (text_predicate field query) w selection =
          query-Finds side field query place w selection
      predicate-Finds (exact_value field value) w selection =
          token-Finds side field (exact_value_token hex_encode value) false place w selection
      predicate-Finds (json_key pattern) w selection = pattern-Finds side pattern place w selection

      children-Finds :
          (children : SearchPredicates)
          → any_wanted hex_encode side children term ≡ true
          → Finds side i (select_groups_for_children hex_encode directory children)
      children-Finds nothing w selection = absurd (clash w refl)
      children-Finds (child_and child children) w selection =
          elim (Bool-cases (wanted hex_encode side child term)) [
            | inl first ↦
                children-Keeps hex_encode side i directory children _
                  (predicate-Finds child first selection)
            | inr other ↦ children-Finds children (rw other at w) _
          ]

-- If a group's smallest and largest term enclose a term of bytes that the predicate is about,
-- `select_search_index_groups` selects the group, for keys as for values.
pub select_search_index_groups_complete :
    (hex_encode : Bytes → Bytes) (directory : SearchIndexDirectory) (predicate : SearchPredicate)
    (side : Side) (i : ℕ) (group : SearchIndexGroupDirectory) (term : Bytes)
    → get_elem? (groups_of side directory) i ≡ some group
    → Holds term group
    → wanted hex_encode side predicate term ≡ true
    → contains i (selected_groups side (select_search_index_groups hex_encode directory predicate))
      ≡ true
unfolding select_search_index_groups
select_search_index_groups_complete hex_encode directory predicate side i group term place holds w =
    predicate-Finds i directory term group holds hex_encode side place predicate w no_groups
