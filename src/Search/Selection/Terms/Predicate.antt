-- ===== src/Search/Selection/Terms/Predicate.antt =====
-- Which ordinals the selection of a predicate has.
use kevindb.Base.{ℕ, ◌≡◌, refl, Bool, false, ◌||◌, Option, some, List}
use kevindb.Base.Text.{Text}
use kevindb.Codec.Types.{Bytes}
use kevindb.Search.Terms.{exact_value_token}
use kevindb.Search.Query.{
  SearchField, SearchQuery, SearchPredicate, SearchPredicates, nothing, child_and, and, or,
  not_predicate, text_predicate, exact_value, json_key,
}
use kevindb.Search.Query.Tokens.{Distinct}
use kevindb.Search.Selection.Wanted.{Side, keys, values}
use kevindb.Search.Selection.Terms.{
  SearchIndexGroupDictionary, Selected, Entries, select_terms_for_predicate,
  select_terms_for_children,
}
use kevindb.Search.Selection.Terms.Chosen.{
  has, keys_of, any_group, query_chosen, value_chosen, key_chosen, chosen, any_chosen,
}
use kevindb.Search.Selection.Terms.Merged.{or_swap, any_group-false, any_group-or}
use kevindb.Search.Selection.Terms.Exact.{pattern-Adds, token-Adds, query-Adds}

abbrev pub on_side {ℓ} : {A : Type ℓ} → Side → A × A → A
on_side keys pair = pair.0
on_side values pair = pair.1

module _ (map_new : Bytes → Option Entries)
    (unique : (bytes : Bytes) (entries : Entries)
      → map_new bytes ≡ some entries
      → Distinct (keys_of entries))
    (is_utf8 : Bytes → Bool) (lossy : Bytes → Bytes) (hex_encode : Bytes → Bytes) (i o : ℕ)
    (groups : List SearchIndexGroupDictionary × List SearchIndexGroupDictionary) (side : Side) where
  -- On both maps: that of the side gains the ordinals whose keys pass the test.
  abbrev pub Selects : (Bytes → Bool) → (Selected × Selected → Selected × Selected) → Type 0
  Selects test select =
      (selected : Selected × Selected)
      → has i o (on_side side (select selected))
        ≡ (any_group map_new test i o (on_side side groups) || has i o (on_side side selected))

  then-Selects :
      (f g : Bytes → Bool) (first second : Selected × Selected → Selected × Selected)
      → Selects f first
      → Selects g second
      → Selects (λ key. f key || g key) (λ selected. second (first selected))
  then-Selects f g first second h k selected =
      rw (k (first selected), h selected, any_group-or map_new i o f g (on_side side groups))
        (or_swap (any_group map_new f i o (on_side side groups))
          (any_group map_new g i o (on_side side groups)) (has i o (on_side side selected)))

  idle-Selects : Selects (λ key. false) (λ selected. selected)
  idle-Selects selected = rw (any_group-false map_new i o (on_side side groups)) refl

module _ (map_new : Bytes → Option Entries)
    (unique : (bytes : Bytes) (entries : Entries)
      → map_new bytes ≡ some entries
      → Distinct (keys_of entries))
    (is_utf8 : Bytes → Bool) (lossy : Bytes → Bytes) (hex_encode : Bytes → Bytes) (i o : ℕ)
    (key_groups value_groups : List SearchIndexGroupDictionary) where
  query-Selects :
      (side : Side) (field : SearchField) (query : SearchQuery)
      → Selects map_new unique is_utf8 lossy hex_encode i o
          (key_groups, value_groups)
          side
          (query_chosen is_utf8 lossy hex_encode side field query)
          (select_terms_for_predicate map_new is_utf8 lossy hex_encode
            (text_predicate field query)
            key_groups
            value_groups)
  query-Selects keys field query selected =
      idle-Selects map_new unique is_utf8 lossy hex_encode i o (key_groups, value_groups) keys
        selected
  query-Selects values field query selected =
      query-Adds map_new unique i o value_groups is_utf8 lossy hex_encode field query (selected.1)

  value-Selects :
      (side : Side) (field : SearchField) (value : Text)
      → Selects map_new unique is_utf8 lossy hex_encode i o
          (key_groups, value_groups)
          side
          (value_chosen is_utf8 lossy hex_encode side field (exact_value_token hex_encode value))
          (select_terms_for_predicate map_new is_utf8 lossy hex_encode
            (exact_value field value)
            key_groups
            value_groups)
  value-Selects keys field value selected =
      idle-Selects map_new unique is_utf8 lossy hex_encode i o (key_groups, value_groups) keys
        selected
  value-Selects values field value selected =
      token-Adds map_new unique i o value_groups is_utf8 lossy hex_encode field
        (exact_value_token hex_encode value) false (selected.1)

  key-Selects :
      (side : Side) (pattern : Bytes)
      → Selects map_new unique is_utf8 lossy hex_encode i o
          (key_groups, value_groups)
          side
          (key_chosen is_utf8 lossy hex_encode side pattern)
          (select_terms_for_predicate map_new is_utf8 lossy hex_encode
            (json_key pattern)
            key_groups
            value_groups)
  key-Selects keys pattern selected =
      pattern-Adds map_new unique i o key_groups is_utf8 lossy hex_encode pattern (selected.0)
  key-Selects values pattern selected =
      idle-Selects map_new unique is_utf8 lossy hex_encode i o (key_groups, value_groups) values
        selected

  module _ (side : Side) where
    mutual
      pub predicate-Selects :
          (predicate : SearchPredicate)
          → Selects map_new unique is_utf8 lossy hex_encode i o
              (key_groups, value_groups)
              side
              (chosen is_utf8 lossy hex_encode side predicate)
              (select_terms_for_predicate map_new is_utf8 lossy hex_encode predicate key_groups
                value_groups)
      predicate-Selects (and children) = children-Selects children
      predicate-Selects (or children) = children-Selects children
      predicate-Selects (not_predicate child) = predicate-Selects child
      predicate-Selects (text_predicate field query) = query-Selects side field query
      predicate-Selects (exact_value field value) = value-Selects side field value
      predicate-Selects (json_key pattern) = key-Selects side pattern

      children-Selects :
          (children : SearchPredicates)
          → Selects map_new unique is_utf8 lossy hex_encode i o
              (key_groups, value_groups)
              side
              (any_chosen is_utf8 lossy hex_encode side children)
              (select_terms_for_children map_new is_utf8 lossy hex_encode children key_groups
                value_groups)
      children-Selects nothing =
          idle-Selects map_new unique is_utf8 lossy hex_encode i o (key_groups, value_groups) side
      children-Selects (child_and child children) =
          then-Selects map_new unique is_utf8 lossy hex_encode i o (key_groups, value_groups) side
            (chosen is_utf8 lossy hex_encode side child)
            (any_chosen is_utf8 lossy hex_encode side children) _ _ (predicate-Selects child)
            (children-Selects children)
