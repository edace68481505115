-- ===== src/Search/Selection/Wanted.antt =====
-- The terms that a predicate is about, independent of how groups and dictionaries are searched.
use kevindb.Base.{◌||◌, Bool, false, List, [], ◌∷◌}
use kevindb.Base.Text.{Text, text_eq}
use kevindb.Codec.Types.{Bytes}
use kevindb.Search.Terms.{
  starts_with, term_value_key, term_value_prefix, exact_value_token, normalize_like_pattern,
  path_matches_pattern,
}
use kevindb.Search.Query.{
  SearchField, all_fields, exact_path, path_prefix, SearchPredicate, SearchPredicates, nothing,
  child_and, and, or, not_predicate, text_predicate, exact_value, json_key,
}

-- The two kinds of groups.
pub data Side : Type 0 where
  keys values : Side

abbrev pub token_wanted : SearchField → Text → Bytes → Bool
token_wanted (exact_path path) token term = text_eq term (term_value_key token path)
token_wanted all_fields token term = starts_with (term_value_prefix token) term
token_wanted (path_prefix prefix) token term = starts_with (term_value_prefix token) term

abbrev pub any_token_wanted : SearchField → List Text → Bytes → Bool
any_token_wanted field [] term = false
any_token_wanted field (token ∷ tokens) term =
    token_wanted field token term || any_token_wanted field tokens term

abbrev pub any_phrase_wanted : SearchField → List (List Text) → Bytes → Bool
any_phrase_wanted field [] term = false
any_phrase_wanted field (phrase ∷ phrases) term =
    any_token_wanted field phrase term || any_phrase_wanted field phrases term

abbrev pub text_wanted : Side → SearchField → List Text → List (List Text) → Bytes → Bool
text_wanted keys field terms phrases term = false
text_wanted values field terms phrases term =
    any_token_wanted field terms term || any_phrase_wanted field phrases term

abbrev pub value_wanted : Side → SearchField → Text → Bytes → Bool
value_wanted keys field token term = false
value_wanted values field token term = token_wanted field token term

abbrev pub key_wanted : Side → Bytes → Bytes → Bool
key_wanted keys pattern term = path_matches_pattern term (normalize_like_pattern pattern)
key_wanted values pattern term = false

module _ (hex_encode : Bytes → Bytes) where
  abbrev mutual
    pub wanted : Side → SearchPredicate → Bytes → Bool
    wanted side (and children) term = any_wanted side children term
    wanted side (or children) term = any_wanted side children term
    wanted side (not_predicate child) term = wanted side child term
    wanted side (text_predicate field query) term =
        text_wanted side field query.terms query.phrases term
    wanted side (exact_value field value) term =
        value_wanted side field (exact_value_token hex_encode value) term
    wanted side (json_key pattern) term = key_wanted side pattern term

    pub any_wanted : Side → SearchPredicates → Bytes → Bool
    any_wanted side nothing term = false
    any_wanted side (child_and child children) term =
        wanted side child term || any_wanted side children term
