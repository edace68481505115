-- ===== src/RunTree/Rooted.antt =====
-- The way up from a run in src/ingest/tree.rs: where the parents of the index end.
use kevindb.Base.{
  ℕ, zero, suc, ◌+◌, ◌<◌, ◌≡◌, refl, sym, ap, arith, inl, inr, true, false, ◌&&◌, not, Option, none,
  some, List, [], ◌∷◌, length, All, Bool-cases, Option-cases, and_left, and_right, is_false,
  or_left, or_right,
}
use kevindb.Base.Text.{Text, text_eq}
use kevindb.Search.Query.{one_of}
use kevindb.Search.Query.Tokens.{Distinct}
use kevindb.RunTree.{RunTreeInput, known_ids, parent_of, parent_creates_cycle, effective}
use kevindb.RunTree.Cycle.{
  Among, Distinct-length, length-known_ids, IsChain, cycle_walk-IsChain, clash, text_eq_sym,
}
use kevindb.RunTree.Family.{parent_in}

all_different :
    (x : Text) (ys : List Text) → one_of ys x ≡ false → All (λ u. text_eq x u ≡ false) ys
all_different x [] h = tt
all_different x (y ∷ ys) h = (
  text_eq_sym y x (or_left (text_eq y x) (one_of ys x) h),
  all_different x ys (or_right (text_eq y x) (one_of ys x) h),
)

none_seen : (xs : List Text) → All (λ x. one_of [] x ≡ false) xs
none_seen [] = tt
none_seen (x ∷ xs) = (refl, none_seen xs)

-- What an effective parent has passed.
effective-some :
    (runs : List RunTreeInput) (s p : Text) (q : Option Text)
    → effective runs s q ≡ some p
    → (q ≡ some p) × (one_of (known_ids runs) p ≡ true) × (parent_creates_cycle runs s p ≡ false)
effective-some runs s p none e = absurd (none-some e)
  where
    none-some : none ≡ some p → ⊥
    none-some e = cc
effective-some runs s p (some q) e =
    elim (Bool-cases
      (one_of (known_ids runs) q && not (text_eq q s) && not (parent_creates_cycle runs s q))) [
        | inr refused ↦ absurd (none-some (rw refused at e))
        | inl passed ↦
            let same : q ≡ p = some_inj (rw passed at e) in
            let known = and_left (one_of (known_ids runs) q && not (text_eq q s)) _ passed in
            (
              ap some same,
              rw (sym same) (and_left (one_of (known_ids runs) q) (not (text_eq q s)) known),
              rw (sym same) (
                  is_false _ (
                    and_right (one_of (known_ids runs) q && not (text_eq q s))
                      (not (parent_creates_cycle runs s q)) passed)),
            )
      ]
  where
    none-some : none ≡ some p → ⊥
    none-some e = cc

    some_inj : {a b : Text} → some a ≡ some b → a ≡ b
    some_inj e = cc

pub parent_in-some :
    (runs : List RunTreeInput) (s p : Text)
    → parent_in runs s ≡ some p
    → (parent_of runs s ≡ some p)
      × (one_of (known_ids runs) p ≡ true)
      × (parent_creates_cycle runs s p ≡ false)
unfolding parent_in
parent_in-some runs s p e = effective-some runs s p (parent_of runs s) e

-- The parents of a span from the next one on, at most as many as asked for.
abbrev pub above : List RunTreeInput → ℕ → Text → List Text
above runs zero x = []
above runs (suc n) x = elim (parent_in runs x) [ none ↦ [] | some p ↦ p ∷ above runs n p ]

above-none :
    (runs : List RunTreeInput) (n : ℕ) (x : Text)
    → parent_in runs x ≡ none
    → above runs (suc n) x ≡ []
above-none runs n x e = rw (above, e) refl

pub above-some :
    (runs : List RunTreeInput) (n : ℕ) (x p : Text)
    → parent_in runs x ≡ some p
    → above runs (suc n) x ≡ p ∷ above runs n p
above-some runs n x p e = rw (above, e) refl

above-IsChain : (runs : List RunTreeInput) (n : ℕ) (x : Text) → IsChain runs (x ∷ above runs n x)
above-IsChain runs zero x = tt
above-IsChain runs (suc n) x = elim (Option-cases (parent_in runs x)) [
  | inl root ↦ rw (above-none runs n x root) tt
  | inr (p, e) ↦
      rw (above-some runs n x p e) ((parent_in-some runs x p e).0, above-IsChain runs n p)
]

above-Among :
    (runs : List RunTreeInput) (n : ℕ) (x : Text)
    → one_of (known_ids runs) x ≡ true
    → Among (known_ids runs) (x ∷ above runs n x)
above-Among runs zero x k = (k, tt)
above-Among runs (suc n) x k = elim (Option-cases (parent_in runs x)) [
  | inl root ↦ rw root (k, tt)
  | inr (p, e) ↦ rw e (k, above-Among runs n p (parent_in-some runs x p e).1)
]

-- A span in front of a chain that starts with its parent: `parent_creates_cycle` would have seen it
-- in the chain.
pub chain-Distinct :
    (runs : List RunTreeInput) (x p : Text) (path : List Text)
    → parent_in runs x ≡ some p
    → IsChain runs (p ∷ path)
    → Distinct (p ∷ path)
    → Among (known_ids runs) (p ∷ path)
    → Distinct (x ∷ p ∷ path)
unfolding parent_creates_cycle
chain-Distinct runs x p path e chain d among =
    let no_cycle = (parent_in-some runs x p e).2 in
    let short = Distinct-length (p ∷ path) (known_ids runs) d among in
    (
      all_different x (p ∷ path) (elim (Bool-cases (one_of (p ∷ path) x)) [
        | inr new ↦ new
        | inl met ↦ absurd (
            clash
              (cycle_walk-IsChain runs (length runs + 2) x p path [] chain d (none_seen (p ∷ path))
                met (omega (arith, short, length-known_ids runs)))
              no_cycle)
      ]),
      d,
    )

-- No span comes twice on the way up.
above-Distinct :
    (runs : List RunTreeInput) (n : ℕ) (x : Text)
    → one_of (known_ids runs) x ≡ true
    → Distinct (x ∷ above runs n x)
above-Distinct runs zero x k = (tt, tt)
above-Distinct runs (suc n) x k = elim (Option-cases (parent_in runs x)) [
  | inl root ↦ rw (above-none runs n x root) (tt, tt)
  | inr (p, e) ↦
      let known = (parent_in-some runs x p e).1 in
      rw (above-some runs n x p e) (
        chain-Distinct runs x p (above runs n p) e (above-IsChain runs n p)
          (above-Distinct runs n p known) (above-Among runs n p known))
]

-- The way up is shorter than the list of runs.
pub length-above :
    (runs : List RunTreeInput) (n : ℕ) (x : Text)
    → one_of (known_ids runs) x ≡ true
    → length (above runs n x) < length runs
length-above runs n x k =
    let short =
      Distinct-length (x ∷ above runs n x) (known_ids runs) (above-Distinct runs n x k)
        (above-Among runs n x k) in
    omega (arith, short, length-known_ids runs)

-- From a known span, the effective parents never come back to a span, however far they are
-- followed, and end in fewer steps than there are runs: cyclic parents are cut.
pub effective-acyclic :
    (runs : List RunTreeInput) (n : ℕ) (x : Text)
    → one_of (known_ids runs) x ≡ true
    → Distinct (x ∷ above runs n x) × (length (above runs n x) < length runs)
effective-acyclic runs n x k = (above-Distinct runs n x k, length-above runs n x k)
