-- ===== src/Search/Query.antt =====
-- src/search/predicate.rs: predicates, fields, and the parser of a search text. A `char` is its code
-- point; a token has ASCII characters only, so that it is its own UTF-8 text. The texts of fields
-- and patterns are lists of bytes.
pub mod Tokens
use kevindb.Base.{
  ℕ, ◌+◌, Bool, true, false, ◌&&◌, ◌||◌, not, Option, none, some, List, [], ◌∷◌, ◌++◌, ltb, leb,
  ◌==◌, length, if◌then◌else◌,
}
use kevindb.Base.Text.{Text, text, text_eq}
use kevindb.Codec.Types.{Bytes}
use kevindb.Search.Terms.{starts_with, strip_prefix}

pub data SearchField : Type 0 where
  all_fields : SearchField
  exact_path : Bytes → SearchField
  path_prefix : Bytes → SearchField

pub record SearchQuery : Type 0 where
  pub terms : List Text
  pub phrases : List (List Text)

mutual
  pub data SearchPredicate : Type 0 where
    and or : SearchPredicates → SearchPredicate
    not_predicate : SearchPredicate → SearchPredicate
    text_predicate : SearchField → SearchQuery → SearchPredicate
    exact_value : SearchField → Bytes → SearchPredicate
    json_key : Bytes → SearchPredicate

  pub data SearchPredicates : Type 0 where
    nothing : SearchPredicates
    child_and : SearchPredicate → SearchPredicates → SearchPredicates

-- `rest.starts_with('.')` on what a prefix leaves
abbrev dotted : Option Bytes → Bool
dotted none = false
dotted (some rest) = starts_with (b'.' ∷ []) rest

unfoldable pub matches_path : SearchField → Bytes → Bool
matches_path all_fields path = true
matches_path (exact_path expected) path = text_eq path expected
matches_path (path_prefix prefix) path = text_eq path prefix || dotted (strip_prefix prefix path)

abbrev pub min_token_bytes : ℕ
min_token_bytes = 2

abbrev pub max_token_bytes : ℕ
max_token_bytes = 64

abbrev pub within : ℕ → ℕ → ℕ → Bool
within low high c = leb low c && leb c high

abbrev pub is_ascii_alphanumeric : ℕ → Bool
is_ascii_alphanumeric c = within b'0' b'9' c || within b'A' b'Z' c || within b'a' b'z' c

abbrev pub to_ascii_lowercase : ℕ → ℕ
to_ascii_lowercase c = if within b'A' b'Z' c then c + 32 else c

abbrev pub one_of : List Text → Text → Bool
one_of [] s = false
one_of (word ∷ words) s = text_eq word s || one_of words s

abbrev stop_words : List Text
stop_words =
    text "a"
    ∷ text "an"
    ∷ text "and"
    ∷ text "are"
    ∷ text "as"
    ∷ text "at"
    ∷ text "be"
    ∷ text "by"
    ∷ text "for"
    ∷ text "from"
    ∷ text "in"
    ∷ text "is"
    ∷ text "it"
    ∷ text "of"
    ∷ text "on"
    ∷ text "or"
    ∷ text "the"
    ∷ text "to"
    ∷ text "with"
    ∷ []

unfoldable pub is_stop_word : Text → Bool
is_stop_word value = one_of stop_words value

-- `push_token`; the caller goes on with an empty `current`, which either branch leaves.
unfoldable pub push_token : List Text → Text → List Text
push_token tokens current =
    if leb min_token_bytes (length current) && not (is_stop_word current)
    then tokens ++ (current ∷ [])
    else tokens

-- The branch for a character that belongs to a token.
abbrev pub push_char : Text → ℕ → Text
push_char current ch =
    if ltb (length current) max_token_bytes
    then current ++ (to_ascii_lowercase ch ∷ [])
    else current

abbrev pub tokens_loop : Text → List Text → Text → List Text
tokens_loop [] tokens current = push_token tokens current
tokens_loop (ch ∷ value) tokens current =
    tokens_loop value (if is_ascii_alphanumeric ch then tokens else push_token tokens current)
      (if is_ascii_alphanumeric ch then push_char current ch else [])

unfoldable pub tokens_for_text : Text → List Text
tokens_for_text value = tokens_loop value [] []

-- `filter(|term| seen.insert(term.clone()))`
abbrev pub dedup_from : List Text → List Text → List Text
dedup_from seen [] = []
dedup_from seen (term ∷ terms) =
    let rest = dedup_from (term ∷ seen) terms in
    if one_of seen term then dedup_from seen terms else term ∷ rest

unfoldable pub dedup_terms : List Text → List Text
dedup_terms terms = dedup_from [] terms

abbrev pub push_phrase : List (List Text) → List Text → List (List Text)
push_phrase phrases [] = phrases
push_phrase phrases (token ∷ tokens) = phrases ++ ((token ∷ tokens) ∷ [])

-- The loop of `parse`; the phrase is that of the inner loop, `none` outside of it.
abbrev pub parse_loop : Text → List (List Text) → Text → Option Text → List (List Text) × Text
parse_loop [] phrases unquoted none = (phrases, unquoted)
parse_loop [] phrases unquoted (some phrase) =
    (push_phrase phrases (tokens_for_text phrase), unquoted ++ (b' ' ∷ []))
parse_loop (ch ∷ value) phrases unquoted none =
    if ch == b'"'
    then parse_loop value phrases unquoted (some [])
    else parse_loop value phrases (unquoted ++ (ch ∷ [])) none
parse_loop (ch ∷ value) phrases unquoted (some phrase) =
    if ch == b'"'
    then parse_loop value (push_phrase phrases (tokens_for_text phrase)) (unquoted ++ (b' ' ∷ []))
        none
    else parse_loop value phrases unquoted (some (phrase ++ (ch ∷ [])))

unfoldable pub parse : Text → SearchQuery
parse value =
    let (phrases, unquoted) = parse_loop value [] [] none in
    record { terms = dedup_terms (tokens_for_text unquoted); phrases = phrases }
