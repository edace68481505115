-- ===== src/RunTree/Order.antt =====
-- Sorting of the runs in src/ingest/tree.rs, by their span ids.
use kevindb.Base.{
  ◌≡◌, refl, ap, ◌∙◌, inl, inr, Bool, true, false, ◌||◌, List, [], ◌∷◌, All, Bool-cases,
}
use kevindb.Base.Text.{Text, text_eq}
use kevindb.Search.Query.{one_of}
use kevindb.Search.Query.Tokens.{Distinct}
use kevindb.RunTree.Cycle.{text_eq_sym}
use kevindb.RunTree.{RunTreeInput, starts_before, insert_run, sort_runs, known_ids}

swap : (a b c : Bool) → (a || (b || c)) ≡ (b || (a || c))
swap true true c = refl
swap true false c = refl
swap false b c = refl

one_of-insert_run :
    (run : RunTreeInput) (runs : List RunTreeInput) (x : Text)
    → one_of (known_ids (insert_run run runs)) x
      ≡ (text_eq run.span_id x || one_of (known_ids runs) x)
one_of-insert_run run [] x = refl
one_of-insert_run run (next ∷ runs) x = elim (Bool-cases (starts_before run next)) [
  | inl e ↦ rw e refl
  | inr e ↦
      rw (e, one_of-insert_run run runs x)
        (swap (text_eq next.span_id x) (text_eq run.span_id x) (one_of (known_ids runs) x))
]

pub one_of-sort_runs :
    (runs : List RunTreeInput) (x : Text)
    → one_of (known_ids (sort_runs runs)) x ≡ one_of (known_ids runs) x
one_of-sort_runs [] x = refl
one_of-sort_runs (run ∷ runs) x =
    one_of-insert_run run (sort_runs runs) x
    ∙ ap (λ b. text_eq run.span_id x || b) (one_of-sort_runs runs x)

module _ (P : Text → Type 0) where
  All-insert_run :
      (run : RunTreeInput) (runs : List RunTreeInput)
      → P run.span_id
      → All P (known_ids runs)
      → All P (known_ids (insert_run run runs))
  All-insert_run run [] p h = (p, tt)
  All-insert_run run (next ∷ runs) p h = elim (Bool-cases (starts_before run next)) [
    | inl e ↦ rw e (p, h)
    | inr e ↦ rw e (h.0, All-insert_run run runs p h.1)
  ]

  All-sort_runs :
      (runs : List RunTreeInput) → All P (known_ids runs) → All P (known_ids (sort_runs runs))
  All-sort_runs [] h = tt
  All-sort_runs (run ∷ runs) h = All-insert_run run (sort_runs runs) h.0 (All-sort_runs runs h.1)

insert_run-Distinct :
    (run : RunTreeInput) (runs : List RunTreeInput)
    → All (λ u. text_eq run.span_id u ≡ false) (known_ids runs)
    → Distinct (known_ids runs)
    → Distinct (known_ids (insert_run run runs))
insert_run-Distinct run [] n d = (tt, tt)
insert_run-Distinct run (next ∷ runs) n d = elim (Bool-cases (starts_before run next)) [
  | inl e ↦ rw e (n, d)
  | inr e ↦ rw e (
    All-insert_run (λ u. text_eq next.span_id u ≡ false) run runs
        (text_eq_sym run.span_id next.span_id n.0) d.0,
    insert_run-Distinct run runs n.1 d.1,
  )
]

pub sort_runs-Distinct :
    (runs : List RunTreeInput) → Distinct (known_ids runs) → Distinct (known_ids (sort_runs runs))
sort_runs-Distinct [] d = tt
sort_runs-Distinct (run ∷ runs) d =
    insert_run-Distinct run (sort_runs runs)
      (All-sort_runs (λ u. text_eq run.span_id u ≡ false) runs d.0) (sort_runs-Distinct runs d.1)
