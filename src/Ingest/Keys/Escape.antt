-- ===== src/Ingest/Keys/Escape.antt =====
-- Decoding of what `escape_path_component` of src/ingest.rs writes.
use kevindb.Base.{
  ℕ, ◌+◌, ◌-◌, ◌*◌, ◌/◌, ◌%◌, ◌<◌, ◌≡◌, ◌≢◌, refl, ap, ◌∙◌, arith, inl, inr, true, false, [], ◌∷◌,
  ltb, ◌==◌, if◌then◌else◌, All, Bool-cases,
}
use kevindb.Base.Text.{Text}
use kevindb.Ingest.Keys.{is_plain, upper_hex, escape_path_component}

abbrev pub hex_value : ℕ → ℕ
hex_value c = if ltb c 58 then c - 48 else c - 55

-- Percent decoding.
abbrev pub unescape : Text → Text
unescape [] = []
unescape (c ∷ []) = c ∷ []
unescape (c ∷ d ∷ []) = c ∷ d ∷ []
unescape (c ∷ high ∷ low ∷ rest) =
    let escaped = unescape rest in
    let plain = unescape (high ∷ low ∷ rest) in
    if c == 37 then (hex_value high * 16 + hex_value low) ∷ escaped else c ∷ plain

hex_value-upper_hex : (n : ℕ) → n < 16 → hex_value (upper_hex n) ≡ n
hex_value-upper_hex n h = ground arith

plain_not_percent : (c : ℕ) → is_plain c ≡ true → (c == 37) ≡ false
plain_not_percent c h = ground arith

-- A byte that is not the escape sign stands for itself.
unescape-plain : (c : ℕ) (s : Text) → (c == 37) ≡ false → unescape (c ∷ s) ≡ c ∷ unescape s
unescape-plain c [] h = refl
unescape-plain c (d ∷ []) h = refl
unescape-plain c (d ∷ e ∷ s) h = rw h refl

-- Decoding the escapes gives the bytes back.
pub unescape-escape_path_component :
    (value : Text) → All (λ byte. byte < 256) value → unescape (escape_path_component value) ≡ value
unfolding escape_path_component
unescape-escape_path_component [] h = refl
unescape-escape_path_component (byte ∷ value) h = elim (Bool-cases (is_plain byte)) [
  | inl plain ↦ rw plain (
      unescape-plain byte (escape_path_component value) (plain_not_percent byte plain)
      ∙ ap (λ t. byte ∷ t) (unescape-escape_path_component value h.1))
  | inr escaped ↦
      rw
        (
          escaped,
          hex_value-upper_hex (byte / 16) (omega (arith, h.0)),
          hex_value-upper_hex (byte % 16) (omega arith),
          unescape-escape_path_component value h.1,
        )
        (ap (λ n. n ∷ value) (omega arith))
]

-- No slash stays.
pub escape_path_component-no_slash :
    (value : Text)
    → All (λ byte. byte < 256) value
    → All (λ c. c ≢ 47) (escape_path_component value)
unfolding escape_path_component
escape_path_component-no_slash [] h = tt
escape_path_component-no_slash (byte ∷ value) h = elim (Bool-cases (is_plain byte)) [
  | inl plain ↦
      rw plain ((λ e. slash_not_plain byte plain e), escape_path_component-no_slash value h.1)
  | inr escaped ↦ rw escaped (
    (λ e. omega arith),
    (
      (λ e. hex_not_slash (byte / 16) e),
      ((λ e. hex_not_slash (byte % 16) e), escape_path_component-no_slash value h.1),
    ),
  )
]
  where
    slash_not_plain : (c : ℕ) → is_plain c ≡ true → c ≡ 47 → ⊥
    slash_not_plain c h e = ground arith

    hex_not_slash : (n : ℕ) → upper_hex n ≡ 47 → ⊥
    hex_not_slash n e = ground arith
