-- ===== src/Search/Terms.antt =====
-- Term keys, their order and the patterns on paths: the helpers at the end of src/search/mod.rs.
-- A `str` or `[u8]` is the list of its bytes, a `str` in UTF-8; the separators and wildcards are
-- ASCII, so that they are found by bytes.
pub mod Pruning
pub mod Patterns
pub mod Trailing
use kevindb.Base.{
  ℕ, ◌+◌, Bool, true, false, ◌&&◌, ◌||◌, not, Option, none, some, List, [], ◌∷◌, ◌++◌, ltb, leb,
  ◌==◌, if◌then◌else◌,
}
use kevindb.Base.Text.{text_eq}
use kevindb.Codec.Types.{Bytes}
use mathlib.Core.List.{reverse}

-- `a <= b` and `a < b` on slices of bytes.
abbrev pub leb_bytes : Bytes → Bytes → Bool
leb_bytes [] bs = true
leb_bytes (a ∷ as') [] = false
leb_bytes (a ∷ as') (b ∷ bs) = ltb a b || ((a == b) && leb_bytes as' bs)

abbrev pub ltb_bytes : Bytes → Bytes → Bool
ltb_bytes a b = not (leb_bytes b a)

abbrev pub starts_with : Bytes → Bytes → Bool
starts_with [] term = true
starts_with (p ∷ ps) [] = false
starts_with (p ∷ ps) (t ∷ ts) = (p == t) && starts_with ps ts

abbrev pub key_value_separator : ℕ
key_value_separator = 0

abbrev pub star : ℕ
star = b'*'

unfoldable pub term_value_prefix : Bytes → Bytes
term_value_prefix token = token ++ (key_value_separator ∷ [])

unfoldable pub term_value_key : Bytes → Bytes → Bytes
term_value_key token path = term_value_prefix token ++ path

-- `exact_value_token` by the hex crate's `encode`.
unfoldable pub exact_value_token : (Bytes → Bytes) → Bytes → Bytes
exact_value_token hex_encode value = b'=' ∷ hex_encode value

abbrev pub behind_separator : Bytes → Option Bytes
behind_separator [] = none
behind_separator (byte ∷ term) =
    let rest = behind_separator term in if byte == key_value_separator then some term else rest

-- The path of a term, before the conversion to a string.
unfoldable pub term_path : Bytes → Bytes
term_path term = elim (behind_separator term) [ some path ↦ path | none ↦ term ]

unfoldable pub min_max_may_contain_exact : Bytes → Bytes → Bytes → Bool
min_max_may_contain_exact min_term max_term key = leb_bytes min_term key && leb_bytes key max_term

-- The loop of `next_prefix`, on the bytes from the last to the first.
abbrev pub pop_loop : Bytes → Option Bytes
pop_loop [] = none
pop_loop (last ∷ upper) =
    let popped = pop_loop upper in
    if last == 255 then popped else some (reverse ((last + 1) ∷ upper))

unfoldable pub next_prefix : Bytes → Option Bytes
next_prefix prefix = pop_loop (reverse prefix)

abbrev pub below : Bytes → Option Bytes → Bool
below term (some upper) = ltb_bytes term upper
below term none = true

unfoldable pub min_max_overlaps_prefix : Bytes → Bytes → Bytes → Bool
min_max_overlaps_prefix min_term max_term prefix =
    if ltb_bytes max_term prefix then false else below min_term (next_prefix prefix)

unfoldable pub normalize_like_pattern : Bytes → Bytes
normalize_like_pattern [] = []
normalize_like_pattern (c ∷ pattern) =
    (if c == b'%' then star else c) ∷ normalize_like_pattern pattern

abbrev pub has_star : Bytes → Bool
has_star [] = false
has_star (c ∷ s) = (c == star) || has_star s

-- `strip_suffix('*')`
abbrev pub strip_star : Bytes → Option Bytes
strip_star [] = none
strip_star (c ∷ []) = if c == star then some [] else none
strip_star (c ∷ d ∷ s) = elim (strip_star (d ∷ s)) [ some rest ↦ some (c ∷ rest) | none ↦ none ]

unfoldable pub simple_trailing_wildcard_prefix : Bytes → Option Bytes
simple_trailing_wildcard_prefix pattern = elim (strip_star pattern) [
  | some prefix ↦ if has_star prefix then none else some prefix
  | none ↦ none
]

-- `split('*')`
abbrev pub add_to_first : ℕ → List Bytes → List Bytes
add_to_first c [] = (c ∷ []) ∷ []
add_to_first c (part ∷ parts) = (c ∷ part) ∷ parts

abbrev pub split_star : Bytes → List Bytes
split_star [] = [] ∷ []
split_star (c ∷ s) =
    let parts = split_star s in if c == star then [] ∷ parts else add_to_first c parts

abbrev pub strip_prefix : Bytes → Bytes → Option Bytes
strip_prefix [] s = some s
strip_prefix (p ∷ ps) [] = none
strip_prefix (p ∷ ps) (c ∷ s) = let rest = strip_prefix ps s in if p == c then rest else none

-- What follows the first place where `find` has the part.
abbrev pub behind_first : Bytes → Bytes → Option Bytes
behind_first part [] = strip_prefix part []
behind_first part (c ∷ s) = elim (strip_prefix part (c ∷ s)) [
  | some rest ↦ some rest
  | none ↦ behind_first part s
]

abbrev pub is_empty_bytes : Bytes → Bool
is_empty_bytes [] = true
is_empty_bytes (c ∷ s) = false

-- The loop over the parts: what remains of the path, or `none` for `return false`. `anchored` is
-- `first && !pattern.starts_with('*')`.
abbrev pub match_parts : List Bytes → Bool → Bytes → Option Bytes
match_parts [] anchored remaining = some remaining
match_parts (part ∷ parts) anchored remaining =
    if is_empty_bytes part
    then match_parts parts anchored remaining
    else elim (if anchored then strip_prefix part remaining else behind_first part remaining) [
      | some rest ↦ match_parts parts false rest
      | none ↦ none
    ]

abbrev pub ends_with_star : Bytes → Bool
ends_with_star pattern = elim (strip_star pattern) [ some rest ↦ true | none ↦ false ]

unfoldable pub path_matches_pattern : Bytes → Bytes → Bool
path_matches_pattern path pattern =
    if not (has_star pattern)
    then text_eq path pattern
    else elim (match_parts (split_star pattern) (not (starts_with (star ∷ []) pattern)) path) [
      | some remaining ↦ ends_with_star pattern || is_empty_bytes remaining
      | none ↦ false
    ]
