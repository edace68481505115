-- ===== src/Search/Query/Tokens.antt =====
-- What the tokenizer and the query parser produce.
use kevindb.Base.{
  ℕ, ◌+◌, ◌≤◌, ◌≡◌, refl, sym, ap, ◌∙◌, arith, inl, inr, true, false, ◌&&◌, ◌||◌, not, Option, none,
  some, List, [], ◌∷◌, ◌++◌, ltb, leb, ◌==◌, length, length-append, append_assoc, All, All-append,
  Bool-cases, leb→le, and_left, and_right, is_false, or_left, or_right, append-nil, le→leb, lt→ltb,
}
use kevindb.Base.Text.{Text, text_eq}
use kevindb.Search.Query.{
  within, is_ascii_alphanumeric, to_ascii_lowercase, one_of, is_stop_word, push_token, push_char,
  tokens_loop, tokens_for_text, dedup_from, dedup_terms, push_phrase, parse_loop, parse,
  min_token_bytes, max_token_bytes,
}

abbrev pub IsTokenChar : ℕ → Type 0
IsTokenChar c = (within b'0' b'9' c || within b'a' b'z' c) ≡ true

-- Lowercase ASCII letters and digits, of 2 to 64 bytes, and no stop word.
abbrev pub IsToken : Text → Type 0
IsToken t =
    (All IsTokenChar t)
    × (min_token_bytes ≤ length t)
    × (length t ≤ max_token_bytes)
    × (is_stop_word t ≡ false)

-- The token that the loop is in.
abbrev Growing : Text → Type 0
Growing t = (All IsTokenChar t) × (length t ≤ max_token_bytes)

lowercase-IsTokenChar :
    (c : ℕ) → is_ascii_alphanumeric c ≡ true → IsTokenChar (to_ascii_lowercase c)
lowercase-IsTokenChar c h = ground arith

push_char-Growing :
    (current : Text) (ch : ℕ)
    → is_ascii_alphanumeric ch ≡ true
    → Growing current
    → Growing (push_char current ch)
push_char-Growing current ch h g = elim (Bool-cases (ltb (length current) max_token_bytes)) [
  | inl room ↦ rw room (
    All-append IsTokenChar current (to_ascii_lowercase ch ∷ []) g.0
        (lowercase-IsTokenChar ch h, tt),
    rw (length-append current (to_ascii_lowercase ch ∷ [])) (ground arith),
  )
  | inr full ↦ rw full g
]

push_token-IsToken :
    (tokens : List Text) (current : Text)
    → All IsToken tokens
    → Growing current
    → All IsToken (push_token tokens current)
unfolding push_token
push_token-IsToken tokens current h g =
    elim (Bool-cases (leb min_token_bytes (length current) && not (is_stop_word current))) [
      | inl kept ↦ rw kept (
          All-append IsToken tokens (current ∷ []) h
            ((g.0, leb→le 2 _ (and_left _ _ kept), g.1, is_false _ (and_right _ _ kept)), tt))
      | inr dropped ↦ rw dropped h
    ]

tokens_loop-IsToken :
    (value : Text) (tokens : List Text) (current : Text)
    → All IsToken tokens
    → Growing current
    → All IsToken (tokens_loop value tokens current)
tokens_loop-IsToken [] tokens current h g = push_token-IsToken tokens current h g
tokens_loop-IsToken (ch ∷ value) tokens current h g = elim (Bool-cases (is_ascii_alphanumeric ch)) [
  | inl word ↦ rw word (
      tokens_loop-IsToken value tokens (push_char current ch) h
        (push_char-Growing current ch word g))
  | inr space ↦ rw space (
      tokens_loop-IsToken value (push_token tokens current) []
        (push_token-IsToken tokens current h g) (tt, omega arith))
]

tokens_for_text-IsToken : (value : Text) → All IsToken (tokens_for_text value)
unfolding tokens_for_text
tokens_for_text-IsToken value = tokens_loop-IsToken value [] [] tt (tt, omega arith)

lowercase-fixed : (c : ℕ) → IsTokenChar c → to_ascii_lowercase c ≡ c
lowercase-fixed c h = ground arith

token_char-alphanumeric : (c : ℕ) → IsTokenChar c → is_ascii_alphanumeric c ≡ true
token_char-alphanumeric c h = ground arith

-- The loop takes all of the characters in.
tokens_loop-fixed :
    (t : Text) (tokens : List Text) (current : Text)
    → All IsTokenChar t
    → length current + length t ≤ max_token_bytes
    → tokens_loop t tokens current ≡ push_token tokens (current ++ t)
tokens_loop-fixed [] tokens current h len = ap (push_token tokens) (sym (append-nil current))
tokens_loop-fixed (c ∷ t) tokens current h len =
    let room : ltb (length current) max_token_bytes ≡ true = lt→ltb _ _ (omega arith) in
    let grown : length (current ++ (c ∷ [])) + length t ≤ max_token_bytes =
      rw (length-append current (c ∷ [])) (omega arith) in
    rw (token_char-alphanumeric c h.0, room, lowercase-fixed c h.0)
      (tokens_loop-fixed t tokens (current ++ (c ∷ [])) h.1 grown
        ∙ ap (push_token tokens) (append_assoc current (c ∷ []) t))

-- `tokens_for_text` returns a token as the one token of itself.
pub tokens_for_text-fixed : (t : Text) → IsToken t → tokens_for_text t ≡ t ∷ []
unfolding tokens_for_text push_token
tokens_for_text-fixed t h =
    tokens_loop-fixed t [] [] h.0 (omega (arith, h.2)) ∙ rw (le→leb 2 (length t) h.1, h.3) refl

-- No text stands in the list twice.
abbrev pub Distinct : List Text → Type 0
Distinct [] = Unit {0}
Distinct (t ∷ ts) = All (λ u. text_eq t u ≡ false) ts × Distinct ts

abbrev Unseen : List Text → List Text → Type 0
Unseen seen terms = All (λ t. one_of seen t ≡ false) terms

Unseen-tail : (term : Text) (seen ts : List Text) → Unseen (term ∷ seen) ts → Unseen seen ts
Unseen-tail term seen [] h = tt
Unseen-tail term seen (t ∷ ts) h = (or_right _ _ h.0, Unseen-tail term seen ts h.1)

Unseen-head :
    (term : Text) (seen ts : List Text)
    → Unseen (term ∷ seen) ts
    → All (λ u. text_eq term u ≡ false) ts
Unseen-head term seen [] h = tt
Unseen-head term seen (t ∷ ts) h = (or_left _ _ h.0, Unseen-head term seen ts h.1)

dedup_from-Unseen : (seen terms : List Text) → Unseen seen (dedup_from seen terms)
dedup_from-Unseen seen [] = tt
dedup_from-Unseen seen (term ∷ terms) = elim (Bool-cases (one_of seen term)) [
  | inl old ↦ rw old (dedup_from-Unseen seen terms)
  | inr new ↦ rw new (new, Unseen-tail term seen _ (dedup_from-Unseen (term ∷ seen) terms))
]

dedup_from-Distinct : (seen terms : List Text) → Distinct (dedup_from seen terms)
dedup_from-Distinct seen [] = tt
dedup_from-Distinct seen (term ∷ terms) = elim (Bool-cases (one_of seen term)) [
  | inl old ↦ rw old (dedup_from-Distinct seen terms)
  | inr new ↦ rw new (
    Unseen-head term seen _ (dedup_from-Unseen (term ∷ seen) terms),
    dedup_from-Distinct (term ∷ seen) terms,
  )
]

dedup_from-All :
    (P : Text → Type 0) (seen terms : List Text) → All P terms → All P (dedup_from seen terms)
dedup_from-All P seen [] h = tt
dedup_from-All P seen (term ∷ terms) h = elim (Bool-cases (one_of seen term)) [
  | inl old ↦ rw old (dedup_from-All P seen terms h.1)
  | inr new ↦ rw new (h.0, dedup_from-All P (term ∷ seen) terms h.1)
]

abbrev pub IsPhrase : List Text → Type 0
IsPhrase tokens = (1 ≤ length tokens) × All IsToken tokens

push_phrase-IsPhrase :
    (phrases : List (List Text)) (tokens : List Text)
    → All IsPhrase phrases
    → All IsToken tokens
    → All IsPhrase (push_phrase phrases tokens)
push_phrase-IsPhrase phrases [] h k = h
push_phrase-IsPhrase phrases (t ∷ ts) h k =
    All-append IsPhrase phrases ((t ∷ ts) ∷ []) h ((omega arith, k), tt)

parse_loop-IsPhrase :
    (value : Text) (phrases : List (List Text)) (unquoted : Text) (quoted : Option Text)
    → All IsPhrase phrases
    → All IsPhrase (parse_loop value phrases unquoted quoted).0
parse_loop-IsPhrase [] phrases unquoted none h = h
parse_loop-IsPhrase [] phrases unquoted (some phrase) h =
    push_phrase-IsPhrase phrases (tokens_for_text phrase) h (tokens_for_text-IsToken phrase)
parse_loop-IsPhrase (ch ∷ value) phrases unquoted none h = elim (Bool-cases (ch == b'"')) [
  | inl quote ↦ rw quote (parse_loop-IsPhrase value phrases unquoted (some []) h)
  | inr other ↦ rw other (parse_loop-IsPhrase value phrases (unquoted ++ (ch ∷ [])) none h)
]
parse_loop-IsPhrase (ch ∷ value) phrases unquoted (some phrase) h = elim (Bool-cases (ch == b'"')) [
  | inl quote ↦ rw quote (
      parse_loop-IsPhrase value (push_phrase phrases (tokens_for_text phrase))
        (unquoted ++ (b' ' ∷ [])) none
        (push_phrase-IsPhrase phrases (tokens_for_text phrase) h (tokens_for_text-IsToken phrase)))
  | inr other ↦ rw other (parse_loop-IsPhrase value phrases unquoted (some (phrase ++ (ch ∷ []))) h)
]

-- The terms of a parsed query are pairwise distinct tokens, and each of its phrases is a list of
-- one or more tokens; a token has 2 to 64 lowercase ASCII letters and digits and is no stop word.
pub parse-IsToken :
    (value : Text)
    → (All IsToken (parse value).terms)
      × (Distinct (parse value).terms)
      × (All IsPhrase (parse value).phrases)
unfolding parse dedup_terms
parse-IsToken value =
    let unquoted = (parse_loop value [] [] none).1 in
    (
      dedup_from-All IsToken [] (tokens_for_text unquoted) (tokens_for_text-IsToken unquoted),
      dedup_from-Distinct [] (tokens_for_text unquoted),
      parse_loop-IsPhrase value [] [] none tt,
    )
