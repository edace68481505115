-- ===== src/Search/Terms/Pruning.antt =====
-- `next_prefix` and the test on a group's smallest and largest term.
use kevindb.Base.{
  ℕ, ◌+◌, ◌<◌, ◌≡◌, refl, sym, ap, ◌∙◌, arith, inl, inr, ◌↔◌, Bool, true, false, ◌&&◌, not, Option,
  none, some, [], ◌∷◌, ◌++◌, ◌==◌, if◌then◌else◌, All, Bool-cases, Option-cases, and_left,
  and_right, ==_iff,
}
use kevindb.Codec.Types.{Bytes, IsByte}
use kevindb.Search.Terms.{
  leb_bytes, ltb_bytes, starts_with, pop_loop, next_prefix, below, min_max_overlaps_prefix,
}
use mathlib.Core.List.{reverse, reverse-append, reverse-cons}

-- `next_prefix` from the first byte on.
abbrev put_front : ℕ → Option Bytes → Option Bytes
put_front x (some upper) = some (x ∷ upper)
put_front x none = if x == 255 then none else some ((x + 1) ∷ [])

abbrev next_from_first : Bytes → Option Bytes
next_from_first [] = none
next_from_first (x ∷ xs) = put_front x (next_from_first xs)

pop_loop-append : (r : Bytes) (x : ℕ) → pop_loop (r ++ (x ∷ [])) ≡ put_front x (pop_loop r)
pop_loop-append [] x = refl
pop_loop-append (last ∷ r) x = elim (Bool-cases (last == 255)) [
  | inl top ↦ rw top (pop_loop-append r x)
  | inr below_top ↦ rw below_top (ap some (reverse-append ((last + 1) ∷ r) (x ∷ [])))
]

next_prefix_lem : (prefix : Bytes) → next_prefix prefix ≡ next_from_first prefix
unfolding next_prefix
next_prefix_lem [] = refl
next_prefix_lem (x ∷ xs) =
    ap pop_loop (reverse-cons x xs)
    ∙ pop_loop-append (reverse xs) x
    ∙ ap (put_front x) (next_prefix_lem xs)

-- The terms that start with a prefix are an interval.
starts_with-interval :
    (prefix term : Bytes)
    → All IsByte prefix
    → All IsByte term
    → starts_with prefix term ≡ (leb_bytes prefix term && below term (next_from_first prefix))
starts_with-interval [] term hp ht = refl
starts_with-interval (p ∷ ps) [] hp ht = refl
starts_with-interval (p ∷ ps) (t ∷ ts) hp ht =
    let rest = starts_with-interval ps ts hp.1 ht.1 in
    elim (Option-cases (next_from_first ps)) [
      | inl last ↦ rw last (at_the_top p t ps ts hp.0 ht.0 (rw last at rest))
      | inr (upper, next) ↦ rw next (inside p t ps ts upper (rw next at rest))
    ]
  where
    at_the_top :
        (p t : ℕ) (ps ts : Bytes)
        → p < 256
        → t < 256
        → starts_with ps ts ≡ (leb_bytes ps ts && true)
        → starts_with (p ∷ ps) (t ∷ ts)
          ≡ (leb_bytes (p ∷ ps) (t ∷ ts) && below (t ∷ ts) (put_front p none))
    at_the_top p t ps ts hp ht rest = rw rest (ground arith)

    inside :
        (p t : ℕ) (ps ts upper : Bytes)
        → starts_with ps ts ≡ (leb_bytes ps ts && ltb_bytes ts upper)
        → starts_with (p ∷ ps) (t ∷ ts)
          ≡ (leb_bytes (p ∷ ps) (t ∷ ts) && ltb_bytes (t ∷ ts) (p ∷ upper))
    inside p t ps ts upper rest = rw rest (ground arith)

pub leb_bytes_refl : (a : Bytes) → leb_bytes a a ≡ true
leb_bytes_refl [] = refl
leb_bytes_refl (x ∷ a) = ground (arith, leb_bytes_refl a)

leb_bytes_trans :
    (a b c : Bytes) → leb_bytes a b ≡ true → leb_bytes b c ≡ true → leb_bytes a c ≡ true
leb_bytes_trans [] b c h k = refl
leb_bytes_trans (x ∷ a) [] c h k = cc
leb_bytes_trans (x ∷ a) (y ∷ b) [] h k = cc
leb_bytes_trans (x ∷ a) (y ∷ b) (z ∷ c) h k = let rest = leb_bytes_trans a b c in ground arith

leb_bytes_total : (a b : Bytes) → leb_bytes a b ≡ false → leb_bytes b a ≡ true
leb_bytes_total [] b h = cc
leb_bytes_total (x ∷ a) [] h = refl
leb_bytes_total (x ∷ a) (y ∷ b) h = let rest = leb_bytes_total a b in ground arith

below_mono :
    (a b : Bytes) (upper : Option Bytes)
    → leb_bytes a b ≡ true
    → below b upper ≡ true
    → below a upper ≡ true
below_mono a b none h k = refl
below_mono a b (some upper) h k = elim (Bool-cases (leb_bytes upper a)) [
  | inl le ↦ absurd (clash (leb_bytes_trans upper a b le h) k)
  | inr gt ↦ ap not gt
]
  where
    clash : {c : Bool} → c ≡ true → not c ≡ true → ⊥
    clash e f = ground arith

starts_with_refl : (a : Bytes) → starts_with a a ≡ true
starts_with_refl [] = refl
starts_with_refl (x ∷ a) = ground (arith, starts_with_refl a)

-- A term of bytes starts with a prefix of bytes exactly if it is not below the prefix and, where
-- `next_prefix` finds a bound, below that bound.
pub starts_with-next_prefix :
    (prefix term : Bytes)
    → All IsByte prefix
    → All IsByte term
    → starts_with prefix term ≡ (leb_bytes prefix term && below term (next_prefix prefix))
starts_with-next_prefix prefix term hp ht =
    rw (next_prefix_lem prefix) (starts_with-interval prefix term hp ht)

-- A term between the smallest and the largest that starts with a prefix.
abbrev pub Between : Bytes → Bytes → Bytes → Type 0
Between min_term max_term prefix =
    (term : Bytes) × (All IsByte term
      × (leb_bytes min_term term ≡ true)
      × (leb_bytes term max_term ≡ true)
      × (starts_with prefix term ≡ true))

module _ (min_term max_term prefix : Bytes) where
  overlap-above :
      min_max_overlaps_prefix min_term max_term prefix ≡ true → leb_bytes prefix max_term ≡ true
  unfolding min_max_overlaps_prefix
  overlap-above h = elim (Bool-cases (leb_bytes prefix max_term)) [
    | inl le ↦ le
    | inr gt ↦ absurd (clash (rw gt at h))
  ]
    where
      clash : ◌≡◌ {A = Bool} false true → ⊥
      clash e = cc

  overlap-below :
      min_max_overlaps_prefix min_term max_term prefix ≡ true
      → below min_term (next_prefix prefix) ≡ true
  unfolding min_max_overlaps_prefix
  overlap-below h = rw (overlap-above h) at h

  overlap-intro :
      leb_bytes prefix max_term ≡ true
      → below min_term (next_prefix prefix) ≡ true
      → min_max_overlaps_prefix min_term max_term prefix ≡ true
  unfolding min_max_overlaps_prefix
  overlap-intro h k = rw h k

  Between-overlap :
      All IsByte prefix
      → Between min_term max_term prefix
      → min_max_overlaps_prefix min_term max_term prefix ≡ true
  Between-overlap hp (term, (bytes, above, under, starts)) =
      let both : (leb_bytes prefix term && below term (next_prefix prefix)) ≡ true =
        sym (starts_with-next_prefix prefix term hp bytes) ∙ starts in
      overlap-intro (leb_bytes_trans prefix term max_term (and_left _ _ both) under)
        (below_mono min_term term (next_prefix prefix) above (and_right _ _ both))

  overlap-Between :
      All IsByte min_term
      → All IsByte prefix
      → leb_bytes min_term max_term ≡ true
      → min_max_overlaps_prefix min_term max_term prefix ≡ true
      → Between min_term max_term prefix
  overlap-Between hm hp ordered h = elim (Bool-cases (leb_bytes prefix min_term)) [
    | inl le ↦ (
      min_term,
      (
        hm,
        leb_bytes_refl min_term,
        ordered,
        starts_with-next_prefix prefix min_term hp hm ∙ rw (le, overlap-below h) refl,
      ),
    )
    | inr gt ↦
        (prefix, (hp, leb_bytes_total prefix min_term gt, overlap-above h, starts_with_refl prefix))
  ]

-- For bytes, and a smallest term that is not above the largest, `min_max_overlaps_prefix` holds
-- exactly if some term between the two starts with the prefix.
pub min_max_overlaps_prefix_iff :
    (min_term max_term prefix : Bytes)
    → All IsByte min_term
    → All IsByte prefix
    → leb_bytes min_term max_term ≡ true
    → (min_max_overlaps_prefix min_term max_term prefix ≡ true) ↔ Between min_term max_term prefix
min_max_overlaps_prefix_iff min_term max_term prefix hm hp ordered = (
  overlap-Between min_term max_term prefix hm hp ordered,
  Between-overlap min_term max_term prefix hp,
)

starts_with-IsByte :
    (prefix term : Bytes) → starts_with prefix term ≡ true → All IsByte term → All IsByte prefix
starts_with-IsByte [] term h k = tt
starts_with-IsByte (p ∷ ps) [] h k = cc
starts_with-IsByte (p ∷ ps) (t ∷ ts) h k =
    let same : p ≡ t = (==_iff p t).0 (and_left (p == t) (starts_with ps ts) h) in
    (rw same (k.0), starts_with-IsByte ps ts (and_right (p == t) (starts_with ps ts) h) k.1)

-- The direction that pruning needs.
pub min_max_overlaps_prefix-member :
    (min_term max_term prefix term : Bytes)
    → All IsByte term
    → leb_bytes min_term term ≡ true
    → leb_bytes term max_term ≡ true
    → starts_with prefix term ≡ true
    → min_max_overlaps_prefix min_term max_term prefix ≡ true
min_max_overlaps_prefix-member min_term max_term prefix term bytes above under starts =
    Between-overlap min_term max_term prefix (starts_with-IsByte prefix term starts bytes)
      (term, (bytes, above, under, starts))
