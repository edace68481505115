-- ===== src/Search/Terms/Trailing.antt =====
-- The paths that a pattern with one wildcard, at the end, matches.
use kevindb.Base.{
  ◌≡◌, refl, arith, inl, inr, Bool, true, false, some, [], ◌∷◌, ◌++◌, ◌==◌, Bool-cases, or_left,
}
use kevindb.Codec.Types.{Bytes}
use kevindb.Search.Terms.{
  star, has_star, strip_star, strip_prefix, starts_with, simple_trailing_wildcard_prefix,
  path_matches_pattern,
}
use kevindb.Search.Terms.Patterns.{
  has_star-append, split_star-starless, simple_trailing_wildcard_prefix-Found,
}

strip_star-snoc : (s : Bytes) → strip_star (s ++ (star ∷ [])) ≡ some s
strip_star-snoc [] = refl
strip_star-snoc (c ∷ []) = refl
strip_star-snoc (c ∷ d ∷ s) = rw (strip_star-snoc (d ∷ s)) refl

starts_with-strip_prefix :
    (part s : Bytes)
    → starts_with part s ≡ true
    → (rest : Bytes) × (strip_prefix part s ≡ some rest)
starts_with-strip_prefix [] s h = (s, refl)
starts_with-strip_prefix (p ∷ ps) [] h = cc
starts_with-strip_prefix (p ∷ ps) (c ∷ s) h = elim (Bool-cases (p == c)) [
  | inl same ↦ let (rest, e) = starts_with-strip_prefix ps s (rw same at h) in (rest, rw same e)
  | inr other ↦ absurd (clash (rw other at h))
]
  where
    clash : ◌≡◌ {A = Bool} false true → ⊥
    clash e = cc

starts-match :
    (prefix path : Bytes)
    → has_star prefix ≡ false
    → starts_with prefix path ≡ true
    → path_matches_pattern path (prefix ++ (star ∷ [])) ≡ true
unfolding path_matches_pattern
starts-match [] path starless h = refl
starts-match (c ∷ s) path starless h =
    let (rest, e) = starts_with-strip_prefix (c ∷ s) path h in
    rw (has_star-append (c ∷ s), split_star-starless (c ∷ s) starless, first, e, ends) refl
  where
    first : starts_with (star ∷ []) (c ∷ s ++ (star ∷ [])) ≡ false
    first = let other = or_left (c == star) (has_star s) starless in ground arith

    ends : strip_star (c ∷ s ++ (star ∷ [])) ≡ some (c ∷ s)
    ends = strip_star-snoc (c ∷ s)

-- A path that starts with what stands in front of a pattern's one wildcard, its last character,
-- matches the pattern.
pub starts_with-path_matches_pattern :
    (path pattern prefix : Bytes)
    → simple_trailing_wildcard_prefix pattern ≡ some prefix
    → starts_with prefix path ≡ true
    → path_matches_pattern path pattern ≡ true
starts_with-path_matches_pattern path pattern prefix found h =
    let f = simple_trailing_wildcard_prefix-Found pattern prefix found in
    rw (f.0) (starts-match prefix path f.1 h)
