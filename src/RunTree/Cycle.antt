-- ===== src/RunTree/Cycle.antt =====
-- Chains of parents: when `parent_creates_cycle` sees them, and how long they get.
use kevindb.Base.{
  ℕ, zero, suc, ◌+◌, ◌≤◌, ◌<◌, ◌≡◌, refl, sym, ap, arith, inl, inr, Bool, true, false, some, List,
  [], ◌∷◌, length, if◌then◌else◌, All, Bool-cases,
}
use kevindb.Base.Text.{Text, text_eq, text_eq→eq, text_eq_refl}
use kevindb.Search.Query.{one_of}
use kevindb.Search.Query.Tokens.{Distinct}
use kevindb.RunTree.{RunTreeInput, known_ids, parent_of, cycle_walk}

pub clash : {b : Bool} → b ≡ true → b ≡ false → ⊥
clash e f = cc

pub text_eq_sym : (s t : Text) → text_eq s t ≡ false → text_eq t s ≡ false
text_eq_sym s t h = elim (Bool-cases (text_eq t s)) [
  | inr e ↦ e
  | inl e ↦ absurd (clash (text_eq_refl t) (rw (sym (text_eq→eq t s e)) at h))
]

-- Without the first occurrence.
abbrev remove : Text → List Text → List Text
remove x [] = []
remove x (y ∷ ys) = let rest = remove x ys in if text_eq y x then ys else y ∷ rest

length-remove :
    (x : Text) (ys : List Text) → one_of ys x ≡ true → length (remove x ys) + 1 ≡ length ys
length-remove x [] h = cc
length-remove x (y ∷ ys) h = elim (Bool-cases (text_eq y x)) [
  | inl here ↦ rw here (omega arith)
  | inr other ↦ rw other (omega (arith, length-remove x ys (rw other at h)))
]

one_of-remove :
    (x z : Text) (ys : List Text)
    → text_eq x z ≡ false
    → one_of ys z ≡ true
    → one_of (remove x ys) z ≡ true
one_of-remove x z [] d h = cc
one_of-remove x z (y ∷ ys) d h = elim (Bool-cases (text_eq y x)) [
  | inl here ↦
      let e : y ≡ x = text_eq→eq y x here in
      let later : one_of ys z ≡ true = rw (e, d) at h in rw here later
  | inr other ↦ rw other (elim (Bool-cases (text_eq y z)) [
    | inl found ↦ rw found refl
    | inr further ↦ rw (further, one_of-remove x z ys d (rw further at h)) refl
  ])
]

abbrev pub Among : List Text → List Text → Type 0
Among ids xs = All (λ x. one_of ids x ≡ true) xs

-- The pigeonhole principle.
pub Distinct-length : (xs ids : List Text) → Distinct xs → Among ids xs → length xs ≤ length ids
Distinct-length [] ids d h = omega arith
Distinct-length (x ∷ xs) ids d h =
    omega (arith, length-remove x ids h.0, Distinct-length xs (remove x ids) d.1 (rest xs d.0 h.1))
  where
    rest :
        (ys : List Text)
        → All (λ u. text_eq x u ≡ false) ys
        → Among ids ys
        → Among (remove x ids) ys
    rest [] e k = tt
    rest (y ∷ ys) e k = (one_of-remove x y ids e.0 k.0, rest ys e.1 k.1)

pub length-known_ids : (runs : List RunTreeInput) → length (known_ids runs) ≡ length runs
length-known_ids [] = refl
length-known_ids (run ∷ runs) = ap suc (length-known_ids runs)

-- Each span's parent is the next.
abbrev pub IsChain : List RunTreeInput → List Text → Type 0
IsChain runs [] = Unit {0}
IsChain runs (s ∷ []) = Unit {0}
IsChain runs (s ∷ p ∷ path) = (parent_of runs s ≡ some p) × IsChain runs (p ∷ path)

not_seen :
    (s : Text) (seen path : List Text)
    → All (λ u. text_eq s u ≡ false) path
    → All (λ x. one_of seen x ≡ false) path
    → All (λ x. one_of (s ∷ seen) x ≡ false) path
not_seen s seen [] d n = tt
not_seen s seen (p ∷ path) d n = (rw (d.0, n.0) refl, not_seen s seen path d.1 n.1)

-- A chain of distinct spans that holds the child is walked up to the child.
pub cycle_walk-IsChain :
    (runs : List RunTreeInput) (fuel : ℕ) (child s : Text) (path seen : List Text)
    → IsChain runs (s ∷ path)
    → Distinct (s ∷ path)
    → All (λ x. one_of seen x ≡ false) (s ∷ path)
    → one_of (s ∷ path) child ≡ true
    → length path < fuel
    → cycle_walk fuel runs child seen (some s) ≡ true
cycle_walk-IsChain runs zero child s path seen c d n h f = absurd (omega arith)
cycle_walk-IsChain runs (suc fuel) child s [] seen c d n h f = elim (Bool-cases (text_eq s child)) [
  | inl found ↦ rw found refl
  | inr other ↦ absurd (clash (rw other at h) refl)
]
cycle_walk-IsChain runs (suc fuel) child s (p ∷ path) seen c d n h f =
    elim (Bool-cases (text_eq s child)) [
      | inl found ↦ rw found refl
      | inr other ↦
          rw (other, n.0, c.0)
            (cycle_walk-IsChain runs fuel child p path (s ∷ seen) c.1 d.1
              (not_seen s seen (p ∷ path) d.0 n.1) (rw other at h) (omega arith))
    ]
