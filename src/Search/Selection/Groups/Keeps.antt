-- ===== src/Search/Selection/Groups/Keeps.antt =====
-- A selected group and the selections after it.
use kevindb.Base.{
  ℕ, ◌+◌, ◌≡◌, refl, arith, Bool, true, false, ◌||◌, List, [], ◌∷◌, ltb, ◌==◌, if◌then◌else◌,
  length,
}
use kevindb.Base.Maps.{insert_set, contains}
use kevindb.Base.Text.{Text}
use kevindb.Codec.Types.{Bytes, SearchIndexGroupDirectory, SearchIndexDirectory}
use kevindb.Search.Terms.{exact_value_token, normalize_like_pattern}
use kevindb.Search.Query.{
  SearchField, SearchQuery, SearchPredicate, SearchPredicates, nothing, child_and, and, or,
  not_predicate, text_predicate, exact_value, json_key,
}
use kevindb.Search.Selection.Wanted.{Side, keys, values}
use kevindb.Search.Selection.Groups.{
  SearchIndexGroupSelection, insert_where, key_group_test, select_key_groups_for_pattern,
  value_group_test, select_value_groups_for_token, select_value_groups_for_tokens,
  select_value_groups_for_phrases, select_value_groups_for_query, select_groups_for_predicate,
  select_groups_for_children,
}

abbrev pub selected_groups : Side → SearchIndexGroupSelection → List ℕ
selected_groups keys selection = selection.term_key_groups
selected_groups values selection = selection.term_value_groups

pub contains-insert_set :
    (i x : ℕ) (set : List ℕ) → contains i (insert_set x set) ≡ ((x == i) || contains i set)
contains-insert_set i x [] = refl
contains-insert_set i x (y ∷ set) = ground (arith, contains-insert_set i x set)

pub insert_where-keeps :
    (test : SearchIndexGroupDirectory → Bool) (i from : ℕ) (groups : List SearchIndexGroupDirectory)
    (set : List ℕ)
    → contains i set ≡ true
    → contains i (insert_where test from groups set) ≡ true
insert_where-keeps test i from [] set h = h
insert_where-keeps test i from (group ∷ groups) set h =
    insert_where-keeps test i (from + 1) groups (if test group then insert_set from set else set)
      (still (test group))
  where
    still : (b : Bool) → contains i (if b then insert_set from set else set) ≡ true
    still true = rw (contains-insert_set i from set, h) (ground arith)
    still false = h

module _ (side : Side) (i : ℕ) where
  -- The group stays in the selection.
  abbrev pub Keeps : (SearchIndexGroupSelection → SearchIndexGroupSelection) → Type 0
  Keeps select =
      (selection : SearchIndexGroupSelection)
      → contains i (selected_groups side selection) ≡ true
      → contains i (selected_groups side (select selection)) ≡ true

pub pattern-Keeps :
    (side : Side) (i : ℕ) (directory : SearchIndexDirectory) (pattern : Bytes)
    → Keeps side i (select_key_groups_for_pattern directory pattern)
unfolding select_key_groups_for_pattern
pattern-Keeps keys i directory pattern selection h =
    insert_where-keeps (key_group_test (normalize_like_pattern pattern)) i 0
      directory.term_key_groups selection.term_key_groups h
pattern-Keeps values i directory pattern selection h = h

pub token-Keeps :
    (side : Side) (i : ℕ) (directory : SearchIndexDirectory) (field : SearchField) (token : Text)
    (positions : Bool)
    → Keeps side i (select_value_groups_for_token directory field token positions)
unfolding select_value_groups_for_token
token-Keeps keys i directory field token positions selection h = h
token-Keeps values i directory field token positions selection h =
    insert_where-keeps (value_group_test field token) i 0 directory.term_value_groups
      selection.term_value_groups h

module _ (side : Side) (i : ℕ) (directory : SearchIndexDirectory) where
  pub tokens-Keeps :
      (field : SearchField) (tokens : List Text) (positions : Bool)
      → Keeps side i (select_value_groups_for_tokens directory field tokens positions)
  tokens-Keeps field [] positions selection h = h
  tokens-Keeps field (token ∷ tokens) positions selection h =
      tokens-Keeps field tokens positions _
        (token-Keeps side i directory field token positions selection h)

  pub phrases-Keeps :
      (field : SearchField) (phrases : List (List Text))
      → Keeps side i (select_value_groups_for_phrases directory field phrases)
  phrases-Keeps field [] selection h = h
  phrases-Keeps field (phrase ∷ phrases) selection h =
      phrases-Keeps field phrases _ (tokens-Keeps field phrase (ltb 1 (length phrase)) selection h)

  pub query-Keeps :
      (field : SearchField) (query : SearchQuery)
      → Keeps side i (select_value_groups_for_query directory field query)
  unfolding select_value_groups_for_query
  query-Keeps field query selection h =
      phrases-Keeps field query.phrases _ (tokens-Keeps field query.terms false selection h)

module _ (hex_encode : Bytes → Bytes) (side : Side) (i : ℕ) (directory : SearchIndexDirectory) where
  mutual
    pub predicate-Keeps :
        (predicate : SearchPredicate)
        → Keeps side i (select_groups_for_predicate hex_encode directory predicate)
    predicate-Keeps (and children) selection h = children-Keeps children selection h
    predicate-Keeps (or children) selection h = children-Keeps children selection h
    predicate-Keeps (not_predicate child) selection h = predicate-Keeps child selection h
    predicate-Keeps (text_predicate field query) selection h =
        query-Keeps side i directory field query selection h
    predicate-Keeps (exact_value field value) selection h =
        token-Keeps side i directory field (exact_value_token hex_encode value) false selection h
    predicate-Keeps (json_key pattern) selection h =
        pattern-Keeps side i directory pattern selection h

    pub children-Keeps :
        (children : SearchPredicates)
        → Keeps side i (select_groups_for_children hex_encode directory children)
    children-Keeps nothing selection h = h
    children-Keeps (child_and child children) selection h =
        children-Keeps children _ (predicate-Keeps child selection h)
