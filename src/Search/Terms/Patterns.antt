-- ===== src/Search/Terms/Patterns.antt =====
-- Patterns with one wildcard, at the end.
use kevindb.Base.{
  ◌≡◌, refl, ap, ◌∙◌, arith, inl, inr, Bool, true, false, Option, none, some, [], ◌∷◌, ◌++◌, ◌==◌,
  Bool-cases, Option-cases, or_left, or_right, ==_iff,
}
use kevindb.Codec.Types.{Bytes}
use kevindb.Search.Terms.{
  star, has_star, strip_star, split_star, strip_prefix, starts_with,
  simple_trailing_wildcard_prefix, path_matches_pattern,
}

pub has_star-append : (s : Bytes) → has_star (s ++ (star ∷ [])) ≡ true
has_star-append [] = refl
has_star-append (c ∷ s) = rw (has_star-append s) (ground arith)

pub split_star-starless :
    (s : Bytes) → has_star s ≡ false → split_star (s ++ (star ∷ [])) ≡ s ∷ [] ∷ []
split_star-starless [] h = refl
split_star-starless (c ∷ s) h =
    rw
      (
        or_left (c == star) (has_star s) h,
        split_star-starless s (or_right (c == star) (has_star s) h),
      )
      refl

strip_star-append : (s prefix : Bytes) → strip_star s ≡ some prefix → s ≡ prefix ++ (star ∷ [])
strip_star-append [] prefix h = cc
strip_star-append (c ∷ []) prefix h = elim (Bool-cases (c == star)) [
  | inl is_star ↦
      let e : ◌≡◌ {A = Option Bytes} (some []) (some prefix) = rw is_star at h in
      let c_star : c ≡ star = (==_iff c star).0 is_star in cc
  | inr other ↦ absurd (clash (rw other at h))
]
  where
    clash : ◌≡◌ {A = Option Bytes} none (some prefix) → ⊥
    clash e = cc
strip_star-append (c ∷ d ∷ s) prefix h = elim (Option-cases (strip_star (d ∷ s))) [
  | inl nothing ↦ absurd (clash (rw nothing at h))
  | inr (rest, e) ↦
      let tail : (d ∷ s) ≡ rest ++ (star ∷ []) = strip_star-append (d ∷ s) rest e in
      let head : ◌≡◌ {A = Option Bytes} (some (c ∷ rest)) (some prefix) = rw e at h in
      ap (◌∷◌ c) tail ∙ ap (λ p. p ++ (star ∷ [])) (some_inj head)
]
  where
    clash : ◌≡◌ {A = Option Bytes} none (some prefix) → ⊥
    clash e = cc

    some_inj : {a b : Bytes} → some a ≡ some b → a ≡ b
    some_inj e = cc

strip_prefix-starts_with :
    (part s rest : Bytes) → strip_prefix part s ≡ some rest → starts_with part s ≡ true
strip_prefix-starts_with [] s rest h = refl
strip_prefix-starts_with (p ∷ ps) [] rest h = cc
strip_prefix-starts_with (p ∷ ps) (c ∷ s) rest h = elim (Bool-cases (p == c)) [
  | inl same ↦ rw same (strip_prefix-starts_with ps s rest (rw same at h))
  | inr other ↦ absurd (clash (rw other at h))
]
  where
    clash : ◌≡◌ {A = Option Bytes} none (some rest) → ⊥
    clash e = cc

-- What `simple_trailing_wildcard_prefix` found.
abbrev pub Found : Bytes → Bytes → Type 0
Found pattern prefix = (pattern ≡ prefix ++ (star ∷ [])) × (has_star prefix ≡ false)

pub simple_trailing_wildcard_prefix-Found :
    (pattern prefix : Bytes)
    → simple_trailing_wildcard_prefix pattern ≡ some prefix
    → Found pattern prefix
unfolding simple_trailing_wildcard_prefix
simple_trailing_wildcard_prefix-Found pattern prefix h = elim (Option-cases (strip_star pattern)) [
  | inl nothing ↦ absurd (clash (rw (simple_trailing_wildcard_prefix, nothing) at h))
  | inr (p, e) ↦ elim (Bool-cases (has_star p)) [
    | inl starred ↦ absurd (clash (rw (simple_trailing_wildcard_prefix, e, starred) at h))
    | inr starless ↦
        let same : ◌≡◌ {A = Option Bytes} (some p) (some prefix) =
          rw (simple_trailing_wildcard_prefix, e, starless) at h in
        (
          strip_star-append pattern p e ∙ ap (λ q. q ++ (star ∷ [])) (some_inj same),
          rw (some_inj same) at starless,
        )
  ]
]
  where
    clash : ◌≡◌ {A = Option Bytes} none (some prefix) → ⊥
    clash e = cc

    some_inj : {a b : Bytes} → some a ≡ some b → a ≡ b
    some_inj e = cc

starless-match :
    (prefix path : Bytes)
    → has_star prefix ≡ false
    → path_matches_pattern path (prefix ++ (star ∷ [])) ≡ true
    → starts_with prefix path ≡ true
unfolding path_matches_pattern
starless-match [] path starless h = refl
starless-match (c ∷ s) path starless h = elim (Option-cases (strip_prefix (c ∷ s) path)) [
  | inl nothing ↦ absurd (
      clash
        (rw (has_star-append (c ∷ s), split_star-starless (c ∷ s) starless, first, nothing) at h))
  | inr (rest, e) ↦ strip_prefix-starts_with (c ∷ s) path rest e
]
  where
    clash : ◌≡◌ {A = Bool} false true → ⊥
    clash e = cc

    first : starts_with (star ∷ []) (c ∷ s ++ (star ∷ [])) ≡ false
    first = let other = or_left (c == star) (has_star s) starless in ground arith

-- A path that matches a pattern whose one wildcard is its last character starts with what stands
-- in front of the wildcard.
pub path_matches_pattern-starts_with :
    (path pattern prefix : Bytes)
    → simple_trailing_wildcard_prefix pattern ≡ some prefix
    → path_matches_pattern path pattern ≡ true
    → starts_with prefix path ≡ true
path_matches_pattern-starts_with path pattern prefix found h =
    let f = simple_trailing_wildcard_prefix-Found pattern prefix found in
    starless-match prefix path f.1 (rw (f.0) at h)
