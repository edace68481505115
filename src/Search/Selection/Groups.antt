-- ===== src/Search/Selection/Groups.antt =====
-- `select_search_index_groups` and the functions under it.
pub mod Complete
pub mod Keeps
use kevindb.Base.{
  ℕ, ◌+◌, Bool, true, false, ◌||◌, not, Option, none, some, List, [], ◌∷◌, ltb, length,
  if◌then◌else◌,
}
use kevindb.Base.Maps.{insert_set}
use kevindb.Base.Text.{Text}
use kevindb.Codec.Types.{Bytes, SearchIndexGroupDirectory, SearchIndexDirectory}
use kevindb.Search.Terms.{
  term_value_key, term_value_prefix, exact_value_token, min_max_may_contain_exact,
  min_max_overlaps_prefix, normalize_like_pattern, has_star, simple_trailing_wildcard_prefix,
}
use kevindb.Search.Query.{
  SearchField, all_fields, exact_path, path_prefix, SearchQuery, SearchPredicate, SearchPredicates,
  nothing, child_and, and, or, not_predicate, text_predicate, exact_value, json_key,
}

pub record SearchIndexGroupSelection : Type 0 where
  pub term_key_groups : List ℕ
  pub term_value_groups : List ℕ
  pub include_positions : Bool

abbrev pub no_groups : SearchIndexGroupSelection
no_groups = record { term_key_groups = []; term_value_groups = []; include_positions = false }

-- `for (index, group) in groups.iter().enumerate()`: insert the index where the test holds.
abbrev pub insert_where :
    (SearchIndexGroupDirectory → Bool) → ℕ → List SearchIndexGroupDirectory → List ℕ → List ℕ
insert_where test index [] set = set
insert_where test index (group ∷ groups) set =
    insert_where test (index + 1) groups (if test group then insert_set index set else set)

abbrev pub may_contain_exact : Bytes → SearchIndexGroupDirectory → Bool
may_contain_exact key group = min_max_may_contain_exact group.min_term group.max_term key

abbrev pub overlaps_prefix : Bytes → SearchIndexGroupDirectory → Bool
overlaps_prefix prefix group = min_max_overlaps_prefix group.min_term group.max_term prefix

abbrev pub any_group : SearchIndexGroupDirectory → Bool
any_group group = true

-- The test of the branch that `select_key_groups_for_pattern` takes; the last branch takes all.
abbrev pub key_group_test : Bytes → SearchIndexGroupDirectory → Bool
key_group_test pattern =
    if not (has_star pattern)
    then may_contain_exact pattern
    else elim (simple_trailing_wildcard_prefix pattern) [
      | some prefix ↦ overlaps_prefix prefix
      | none ↦ any_group
    ]

unfoldable pub select_key_groups_for_pattern :
    SearchIndexDirectory → Bytes → SearchIndexGroupSelection → SearchIndexGroupSelection
select_key_groups_for_pattern directory pattern selection = record selection {
  term_key_groups =
      insert_where (key_group_test (normalize_like_pattern pattern)) 0 directory.term_key_groups
        selection.term_key_groups;
}

abbrev pub value_group_test : SearchField → Text → SearchIndexGroupDirectory → Bool
value_group_test (exact_path path) token = may_contain_exact (term_value_key token path)
value_group_test all_fields token = overlaps_prefix (term_value_prefix token)
value_group_test (path_prefix prefix) token = overlaps_prefix (term_value_prefix token)

unfoldable pub select_value_groups_for_token :
    SearchIndexDirectory
    → SearchField
    → Text
    → Bool
    → SearchIndexGroupSelection
    → SearchIndexGroupSelection
select_value_groups_for_token directory field token include_positions selection = record selection {
  term_value_groups =
      insert_where (value_group_test field token) 0 directory.term_value_groups
        selection.term_value_groups;
  include_positions = include_positions || selection.include_positions;
}

abbrev pub select_value_groups_for_tokens :
    SearchIndexDirectory
    → SearchField
    → List Text
    → Bool
    → SearchIndexGroupSelection
    → SearchIndexGroupSelection
select_value_groups_for_tokens directory field [] positions selection = selection
select_value_groups_for_tokens directory field (token ∷ tokens) positions selection =
    select_value_groups_for_tokens directory field tokens positions
      (select_value_groups_for_token directory field token positions selection)

abbrev pub select_value_groups_for_phrases :
    SearchIndexDirectory
    → SearchField
    → List (List Text)
    → SearchIndexGroupSelection
    → SearchIndexGroupSelection
select_value_groups_for_phrases directory field [] selection = selection
select_value_groups_for_phrases directory field (phrase ∷ phrases) selection =
    select_value_groups_for_phrases directory field phrases
      (select_value_groups_for_tokens directory field phrase (ltb 1 (length phrase)) selection)

unfoldable pub select_value_groups_for_query :
    SearchIndexDirectory
    → SearchField
    → SearchQuery
    → SearchIndexGroupSelection
    → SearchIndexGroupSelection
select_value_groups_for_query directory field query selection =
    select_value_groups_for_phrases directory field query.phrases
      (select_value_groups_for_tokens directory field query.terms false selection)

module _ (hex_encode : Bytes → Bytes) where
  abbrev mutual
    pub select_groups_for_predicate :
        SearchIndexDirectory
        → SearchPredicate
        → SearchIndexGroupSelection
        → SearchIndexGroupSelection
    select_groups_for_predicate directory (and children) selection =
        select_groups_for_children directory children selection
    select_groups_for_predicate directory (or children) selection =
        select_groups_for_children directory children selection
    select_groups_for_predicate directory (not_predicate child) selection =
        select_groups_for_predicate directory child selection
    select_groups_for_predicate directory (text_predicate field query) selection =
        select_value_groups_for_query directory field query selection
    select_groups_for_predicate directory (exact_value field value) selection =
        select_value_groups_for_token directory field (exact_value_token hex_encode value) false
          selection
    select_groups_for_predicate directory (json_key pattern) selection =
        select_key_groups_for_pattern directory pattern selection

    pub select_groups_for_children :
        SearchIndexDirectory
        → SearchPredicates
        → SearchIndexGroupSelection
        → SearchIndexGroupSelection
    select_groups_for_children directory nothing selection = selection
    select_groups_for_children directory (child_and child children) selection =
        select_groups_for_children directory children
          (select_groups_for_predicate directory child selection)

  unfoldable pub select_search_index_groups :
      SearchIndexDirectory → SearchPredicate → SearchIndexGroupSelection
  select_search_index_groups directory predicate =
      select_groups_for_predicate directory predicate no_groups
