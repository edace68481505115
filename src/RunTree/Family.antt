-- ===== src/RunTree/Family.antt =====
-- Parents and children in the index of src/ingest/tree.rs, for runs with different span ids.
use kevindb.Base.{
  ◌≡◌, ◌≢◌, refl, sym, ap, ◌∙◌, inl, inr, Bool, true, false, ◌||◌, Option, none, some, List, [],
  ◌∷◌, map, All, All-imp, Bool-cases, Option-cases,
}
use kevindb.Base.Text.{Text, text_eq, text_eq→eq, text_eq_refl}
use kevindb.Search.Query.{one_of}
use kevindb.Search.Query.Tokens.{Distinct}
use kevindb.RunTree.{
  RunTreeInput, IndexedRunInput, known_ids, parent_of, effective, index_run, find_input,
  same_parent, children_of,
}

-- The parent that the index gives a span id.
unfoldable pub parent_in : List RunTreeInput → Text → Option Text
parent_in runs s = effective runs s (parent_of runs s)

pub same_parent→eq : (p q : Option Text) → same_parent p q ≡ true → p ≡ q
same_parent→eq none none h = refl
same_parent→eq none (some q) h = cc
same_parent→eq (some p) none h = cc
same_parent→eq (some p) (some q) h = ap some (text_eq→eq p q h)

pub same_parent_refl : (p : Option Text) → same_parent p p ≡ true
same_parent_refl none = refl
same_parent_refl (some p) = text_eq_refl p

abbrev pub Listed : List RunTreeInput → RunTreeInput → Type 0
Listed runs run = parent_of runs run.span_id ≡ run.parent_span_id

not_one_of : (x : Text) (ys : List Text) → All (λ u. text_eq x u ≡ false) ys → one_of ys x ≡ false
not_one_of x [] h = refl
not_one_of x (y ∷ ys) h = elim (Bool-cases (text_eq y x)) [
  | inl e ↦
      let same : y ≡ x = text_eq→eq y x e in
      let never : text_eq x x ≡ false = rw same at h.0 in absurd (cc (never, text_eq_refl x))
  | inr e ↦ rw (e, not_one_of x ys h.1) refl
]

Listed-later :
    (run : RunTreeInput) (later runs : List RunTreeInput)
    → All (λ r. one_of (known_ids runs) r.span_id ≡ true) later
    → All (Listed runs) later
    → All (Listed (run ∷ runs)) later
Listed-later run [] runs k h = tt
Listed-later run (r ∷ later) runs k h = (rw (k.0) (h.0), Listed-later run later runs k.1 h.1)

-- Every run of a list is known there.
known_more :
    (run : RunTreeInput) (later runs : List RunTreeInput)
    → All (λ r. one_of (known_ids runs) r.span_id ≡ true) later
    → All (λ r. one_of (known_ids (run ∷ runs)) r.span_id ≡ true) later
known_more run later runs =
    All-imp (λ r. one_of (known_ids runs) r.span_id ≡ true)
      (λ r. one_of (known_ids (run ∷ runs)) r.span_id ≡ true) later (λ r h. either _ _ h)
  where
    either : (a b : Bool) → b ≡ true → (a || b) ≡ true
    either true b h = refl
    either false b h = h

pub all_known :
    (runs : List RunTreeInput) → All (λ r. one_of (known_ids runs) r.span_id ≡ true) runs
all_known [] = tt
all_known (run ∷ runs) =
    (rw (text_eq_refl run.span_id) refl, known_more run runs runs (all_known runs))

pub all_Listed : (runs : List RunTreeInput) → Distinct (known_ids runs) → All (Listed runs) runs
all_Listed [] d = tt
all_Listed (run ∷ runs) d = (
  rw (not_one_of run.span_id (known_ids runs) d.0, text_eq_refl run.span_id) refl,
  Listed-later run runs runs (all_known runs) (all_Listed runs d.1),
)

-- The children of a parent have it as their parent, and are known.
abbrev pub ChildOf : List RunTreeInput → Option Text → Text → Type 0
ChildOf runs parent c = (parent_in runs c ≡ parent) × (one_of (known_ids runs) c ≡ true)

pub children_of-ChildOf :
    (runs some_runs : List RunTreeInput) (parent : Option Text)
    → All (Listed runs) some_runs
    → All (λ r. one_of (known_ids runs) r.span_id ≡ true) some_runs
    → All (ChildOf runs parent) (children_of (map (index_run runs) some_runs) parent)
unfolding parent_in
children_of-ChildOf runs [] parent l k = tt
children_of-ChildOf runs (run ∷ some_runs) parent l k =
    elim (Bool-cases (same_parent (effective runs run.span_id run.parent_span_id) parent)) [
      | inl e ↦ rw e (
        (ap (effective runs run.span_id) l.0 ∙ same_parent→eq _ parent e, k.0),
        children_of-ChildOf runs some_runs parent l.1 k.1,
      )
      | inr e ↦ rw e (children_of-ChildOf runs some_runs parent l.1 k.1)
    ]

-- A known span is listed under its parent.
pub one_of-children_of :
    (runs some_runs : List RunTreeInput) (s : Text)
    → All (Listed runs) some_runs
    → one_of (known_ids some_runs) s ≡ true
    → one_of (children_of (map (index_run runs) some_runs) (parent_in runs s)) s ≡ true
unfolding parent_in
one_of-children_of runs [] s l k = cc
one_of-children_of runs (run ∷ some_runs) s l k = elim (Bool-cases (text_eq run.span_id s)) [
  | inl e ↦
      let same : run.span_id ≡ s = text_eq→eq run.span_id s e in
      let p : parent_in runs s ≡ effective runs run.span_id run.parent_span_id =
        ap (λ t. effective runs t (parent_of runs t)) (sym same)
        ∙ ap (effective runs run.span_id) l.0 in
      rw (p, same_parent_refl (effective runs run.span_id run.parent_span_id), e) refl
  | inr e ↦
      let rest = one_of-children_of runs some_runs s l.1 (rw e at k) in
      elim (Bool-cases
        (same_parent (effective runs run.span_id run.parent_span_id) (parent_in runs s))) [
          | inl f ↦ rw (f, e) rest
          | inr f ↦ rw f rest
        ]
]

abbrev pub InputOf : List RunTreeInput → Text → IndexedRunInput → Type 0
InputOf runs s input = (input.run.span_id ≡ s) × (input.effective_parent ≡ parent_in runs s)

-- An input that is found is the one of the span.
pub find_input-InputOf :
    (runs some_runs : List RunTreeInput) (s : Text) (input : IndexedRunInput)
    → All (Listed runs) some_runs
    → find_input (map (index_run runs) some_runs) s ≡ some input
    → InputOf runs s input
unfolding parent_in
find_input-InputOf runs [] s input l e = cc
find_input-InputOf runs (run ∷ some_runs) s input l e =
    elim (Option-cases (find_input (map (index_run runs) some_runs) s)) [
      | inr (later, found) ↦ find_input-InputOf runs some_runs s input l.1 (found ∙ (rw found at e))
      | inl missing ↦ elim (Bool-cases (text_eq run.span_id s)) [
        | inr other ↦ absurd (none-some (rw (missing, other) at e))
        | inl same ↦
            let it : index_run runs run ≡ input = some_inj (rw (missing, same) at e) in
            let span : run.span_id ≡ s = text_eq→eq run.span_id s same in
            (
              ap (λ x. x.run.span_id) (sym it) ∙ span,
              ap (λ x. x.effective_parent) (sym it)
                  ∙ ap (effective runs run.span_id) (sym l.0)
                  ∙ ap (λ t. effective runs t (parent_of runs t)) span,
            )
      ]
    ]
  where
    none-some : none ≡ some input → ⊥
    none-some e = cc

    some_inj : {a b : IndexedRunInput} → some a ≡ some b → a ≡ b
    some_inj e = cc

-- A known span has an input.
pub find_input-known :
    (runs some_runs : List RunTreeInput) (s : Text)
    → one_of (known_ids some_runs) s ≡ true
    → find_input (map (index_run runs) some_runs) s ≢ none
find_input-known runs [] s k e = cc
find_input-known runs (run ∷ some_runs) s k e = elim (Bool-cases (text_eq run.span_id s)) [
  | inl same ↦ elim (Option-cases (find_input (map (index_run runs) some_runs) s)) [
    | inl missing ↦ some_none (rw (missing, same) at e)
    | inr (later, found) ↦ some_none (rw found at e)
  ]
  | inr other ↦ elim (Option-cases (find_input (map (index_run runs) some_runs) s)) [
    | inl missing ↦ find_input-known runs some_runs s (rw other at k) missing
    | inr (later, found) ↦ some_none (rw found at e)
  ]
]
  where
    some_none : {a : IndexedRunInput} → some a ≡ none → ⊥
    some_none e = cc
