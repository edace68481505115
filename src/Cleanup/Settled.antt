-- ===== src/Cleanup/Settled.antt =====
-- What a cleanup of compacted objects leaves to be done.
use kevindb.Base.{
  ℕ, ◌^◌, ◌≡◌, refl, sym, subst, arith, inl, inr, Bool, true, false, ◌&&◌, ◌||◌, List, [], ◌∷◌, leb,
  ◌==◌, if◌then◌else◌, All, Bool-cases,
}
use kevindb.Base.Text.{Text}
use kevindb.Base.Result.{Result, ok, err}
use kevindb.Cleanup.{
  TraceSegment, ObjectCleanupCandidate, ObjectCleanupReceipt, ObjectStoreError, CleanupError,
  is_candidate, to_candidate, load_compacted_cleanup_candidates, is_marked,
  mark_compacted_objects_cleaned, is_empty_list, duration_nanos,
}
use kevindb.Cleanup.Run.{
  delete_candidates, mark_deleted, cleanup_with_grace, cleanup_compacted_objects_at,
}

-- Each row that is to be cleaned is marked.
abbrev Covered : ℕ → ℕ → List ObjectCleanupCandidate → List TraceSegment → Type 0
Covered now grace candidates table =
    All (λ row. is_candidate now grace row ≡ true → is_marked candidates row.id ≡ true) table

Covered-cons :
    (now grace : ℕ) (candidate : ObjectCleanupCandidate) (candidates : List ObjectCleanupCandidate)
    (table : List TraceSegment)
    → Covered now grace candidates table
    → Covered now grace (candidate ∷ candidates) table
Covered-cons now grace candidate candidates [] h = tt
Covered-cons now grace candidate candidates (row ∷ table) h = (
  λ wanted. rw (h.0 wanted) (or_true (candidate.trace_segment_id == row.id)),
  Covered-cons now grace candidate candidates table h.1,
)
  where
    or_true : (b : Bool) → (b || true) ≡ true
    or_true true = refl
    or_true false = refl

load-cons :
    (now grace : ℕ) (row : TraceSegment) (table : List TraceSegment) (test : Bool)
    → is_candidate now grace row ≡ test
    → load_compacted_cleanup_candidates now grace (row ∷ table) ≡ (
        if test
        then to_candidate row ∷ load_compacted_cleanup_candidates now grace table
        else load_compacted_cleanup_candidates now grace table)
unfolding load_compacted_cleanup_candidates
load-cons now grace row table test e = rw e refl

load-Covered :
    (now grace : ℕ) (table : List TraceSegment)
    → Covered now grace (load_compacted_cleanup_candidates now grace table) table
load-Covered now grace [] = tt
load-Covered now grace (row ∷ table) =
    let rest = load_compacted_cleanup_candidates now grace table in
    let covered : Covered now grace rest table = load-Covered now grace table in
    elim (Bool-cases (is_candidate now grace row)) [
      | inl wanted ↦
          subst (λ cs. Covered now grace cs (row ∷ table))
            (sym (load-cons now grace row table true wanted))
            (
              λ w. own row.id (is_marked rest row.id),
              Covered-cons now grace (to_candidate row) rest table covered,
            )
      | inr other ↦
          subst (λ cs. Covered now grace cs (row ∷ table))
            (sym (load-cons now grace row table false other)) (λ w. absurd (clash w other), covered)
    ]
  where
    own : (id : ℕ) (b : Bool) → ((id == id) || b) ≡ true
    own id b = ground arith

    clash : {b : Bool} → b ≡ true → b ≡ false → ⊥
    clash e f = cc

mark-settles :
    (now grace later : ℕ) (candidates : List ObjectCleanupCandidate) (table : List TraceSegment)
    → Covered now grace candidates table
    → load_compacted_cleanup_candidates now grace
        (mark_compacted_objects_cleaned candidates later table)
      ≡ []
unfolding load_compacted_cleanup_candidates mark_compacted_objects_cleaned
mark-settles now grace later candidates [] h = refl
mark-settles now grace later candidates (row ∷ table) h =
    let rest = mark-settles now grace later candidates table h.1 in
    elim (Bool-cases (is_marked candidates row.id)) [
      | inl marked ↦ rw (marked, and_false row.compacted) rest
      | inr free ↦ elim (Bool-cases (is_candidate now grace row)) [
        | inl wanted ↦ absurd (clash (h.0 wanted) free)
        | inr other ↦ rw (free, other) rest
      ]
    ]
  where
    and_false : (b : Bool) → (b && false) ≡ false
    and_false true = refl
    and_false false = refl

    clash : {b : Bool} → b ≡ true → b ≡ false → ⊥
    clash e f = cc

-- A run's outcome: on success the candidates of the receipt are those of the table before, and none
-- is left unless it was a dry run; on failure or in a dry run the table is as before.
abbrev pub Settles :
    {Store : Type 0}
    → ℕ
    → ℕ
    → Bool
    → List TraceSegment
    → Result CleanupError ObjectCleanupReceipt × Store × List TraceSegment
    → Type 0
Settles now grace dry_run table (err e, store, table') = table' ≡ table
Settles now grace true table (ok receipt, store, table') =
    (receipt.candidates ≡ load_compacted_cleanup_candidates now grace table) × (table' ≡ table)
Settles now grace false table (ok receipt, store, table') =
    (receipt.candidates ≡ load_compacted_cleanup_candidates now grace table)
    × (load_compacted_cleanup_candidates now grace table' ≡ [])

module _ {ObjectPath Store : Type 0} (path_from : Text → ObjectPath) (location : ObjectPath → Text)
    (list : Store → Result ObjectStoreError (List (ObjectPath × ℕ)))
    (delete : ObjectPath → Store → Result ObjectStoreError (Unit {0}) × Store) where
  mark_deleted-Settles :
      (now grace : ℕ) (table : List TraceSegment) (done : Result CleanupError ℕ × Store)
      → Settles now grace false table (
          mark_deleted path_from location list delete
            (load_compacted_cleanup_candidates now grace table)
            now
            table
            done)
  mark_deleted-Settles now grace table (err e, store) = refl
  mark_deleted-Settles now grace table (ok n, store) = (
    refl,
    mark-settles now grace now (load_compacted_cleanup_candidates now grace table) table
        (load-Covered now grace table),
  )

  with_grace-Settles :
      (now grace : ℕ) (dry_run : Bool) (store : Store) (table : List TraceSegment)
      → Settles now grace dry_run table
          (cleanup_with_grace path_from location list delete now dry_run store table (ok grace))
  with_grace-Settles now grace true store table = (refl, refl)
  with_grace-Settles now grace false store table =
      let candidates = load_compacted_cleanup_candidates now grace table in
      elim (Bool-cases (is_empty_list candidates)) [
        | inl idle ↦ rw idle (refl, empty_list candidates idle)
        | inr busy ↦ rw busy (
            mark_deleted-Settles now grace table
              (delete_candidates path_from location list delete candidates 0 store))
      ]
    where
      empty_list : (cs : List ObjectCleanupCandidate) → is_empty_list cs ≡ true → cs ≡ []
      empty_list [] h = refl
      empty_list (c ∷ cs) h = cc

-- If `cleanup_compacted_objects_at` succeeds, the receipt has the candidates of the table before,
-- and then a dry run leaves the table as it is, while any other run leaves no candidate for the
-- same times. If it fails, the table is as it was.
pub cleanup_compacted_objects_at-Settles :
    {ObjectPath Store : Type 0} (path_from : Text → ObjectPath) (location : ObjectPath → Text)
    (list : Store → Result ObjectStoreError (List (ObjectPath × ℕ)))
    (delete : ObjectPath → Store → Result ObjectStoreError (Unit {0}) × Store) (now grace : ℕ)
    (dry_run : Bool) (store : Store) (table : List TraceSegment)
    → Settles now grace dry_run table
        (cleanup_compacted_objects_at path_from location list delete now grace dry_run store table)
unfolding cleanup_compacted_objects_at duration_nanos
cleanup_compacted_objects_at-Settles path_from location list delete now grace dry_run store table =
    elim (Bool-cases (leb (2 ^ 63) grace)) [
      | inl long ↦ rw long refl
      | inr short ↦
          rw short (with_grace-Settles path_from location list delete now grace dry_run store table)
    ]
