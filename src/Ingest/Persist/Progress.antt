-- ===== src/Ingest/Persist/Progress.antt =====
-- What one round of `persist_partition_records` of src/ingest.rs does to the records that remain.
pub mod Rounds
use kevindb.Base.{
  ℕ, zero, suc, ◌+◌, ◌*◌, ◌≤◌, ◌<◌, min, max, ◌≡◌, refl, sym, ap, ◌∙◌, subst, arith, inl, inr, ◌⊎◌,
  Bool, true, false, ◌||◌, Option, none, some, List, [], ◌∷◌, ◌++◌, take, drop, length, length-take,
  length-drop, take-append-drop, All-drop, All-take, if◌then◌else◌, All, All-append, All-imp, Any,
  Any-append_left, All-Any, Bool-cases, Option-cases,
}
use kevindb.Base.Text.{Text, text_eq, text_eq_refl}
use kevindb.Base.Result.{Result, ok, err, ◌>>=◌}
use kevindb.Ingest.{
  SpanRecord, PartitionKey, PersistFailure, record_partition_key, key_eq,
  validate_partition_records,
}
use kevindb.Ingest.Partitions.{key_eq_refl}
use kevindb.Ingest.Keys.{segment_uri, uri_of}
use kevindb.Ingest.Persist.{
  RunEvent, event_of, same_event, has_event, FlushReceipt, Fault, no_fault, Round, without_existing,
  filter_duplicate_records, lookup_result, insert_run_events, write_segment, place_segment,
  persist_segment, Persisted, finished, failed, running, max_spans_per_segment, after_segment,
  after_lookup, persist_rounds, persist_partition_records, Continue,
}
use kevindb.Ingest.Persist.Saved.{Stored, InProject, All-without_existing, has_event-append}

-- No call fails in the round. Other nodes may commit what they like.
abbrev pub Faultless : Round → Type 0
Faultless round = (round.lookup_fault ≡ none) × (round.write_fault ≡ no_fault)

abbrev pub DistinctEvents : List SpanRecord → Type 0
DistinctEvents [] = Unit {0}
DistinctEvents (x ∷ records) =
    All (λ y. same_event (event_of x) (event_of y) ≡ false) records × DistinctEvents records

abbrev pub InPartition : PartitionKey → List SpanRecord → Type 0
InPartition partition records = All (λ r. record_partition_key r ≡ partition) records

abbrev pub SegmentSize : ℕ → FlushReceipt → Type 0
SegmentSize configured receipt =
    (0 < receipt.span_count) × (receipt.span_count ≤ max_spans_per_segment configured)

-- A success, with segments that are neither empty nor too large.
abbrev pub Completes : ℕ → Persisted → Type 0
Completes configured (finished receipts events) = All (SegmentSize configured) receipts
Completes configured (failed error events) = ⊥
Completes configured (running records events) = ⊥

pub DistinctEvents-drop :
    (n : ℕ) (records : List SpanRecord) → DistinctEvents records → DistinctEvents (drop n records)
DistinctEvents-drop zero records d = d
DistinctEvents-drop (suc n) [] d = tt
DistinctEvents-drop (suc n) (x ∷ records) d = DistinctEvents-drop n records d.1

pub DistinctEvents-take :
    (n : ℕ) (records : List SpanRecord) → DistinctEvents records → DistinctEvents (take n records)
DistinctEvents-take zero records d = tt
DistinctEvents-take (suc n) [] d = tt
DistinctEvents-take (suc n) (x ∷ records) d =
    (All-take _ n records d.0, DistinctEvents-take n records d.1)

-- A conflict comes from the table, if the records have different events.
pub insert_run_events-none :
    (records : List SpanRecord) (events : List RunEvent)
    → DistinctEvents records
    → insert_run_events records events ≡ none
    → Any (Stored events) records
insert_run_events-none [] events d h = cc
insert_run_events-none (x ∷ records) events d h =
    elim (Bool-cases (has_event events (event_of x))) [
      | inl old ↦ inl old
      | inr new ↦ inr (
          All-Any (λ y. same_event (event_of x) (event_of y) ≡ false) (Stored (event_of x ∷ events))
            (Stored events) records (λ y other stored. rw other at stored) d.0
            (insert_run_events-none records (event_of x ∷ events) d.1 (rw new at h)))
    ]

pub Stored-append :
    (new events : List RunEvent) (records : List SpanRecord)
    → Any (Stored events) records
    → Any (Stored (new ++ events)) records
Stored-append new events [] h = absurd h
Stored-append new events (x ∷ records) (inl h) = inl (has_event-append new events (event_of x) h)
Stored-append new events (x ∷ records) (inr h) = inr (Stored-append new events records h)

-- What the lookup keeps.
module _ (events : List RunEvent) (project : Text) where
  pub DistinctEvents-without_existing :
      (records : List SpanRecord)
      → DistinctEvents records
      → DistinctEvents (without_existing events project records)
  DistinctEvents-without_existing [] d = tt
  DistinctEvents-without_existing (x ∷ records) d =
      let event : RunEvent = record {
        project_name = project;
        idempotency_key = (event_of x).idempotency_key;
      } in
      elim (Bool-cases (has_event events event)) [
        | inl old ↦ rw old (DistinctEvents-without_existing records d.1)
        | inr new ↦ rw new (
          All-without_existing (λ y. same_event (event_of x) (event_of y) ≡ false) events project
              records d.0,
          DistinctEvents-without_existing records d.1,
        )
      ]

  pub length-without_existing :
      (records : List SpanRecord)
      → length (without_existing events project records) ≤ length records
  length-without_existing [] = omega arith
  length-without_existing (x ∷ records) =
      let event : RunEvent = record {
        project_name = project;
        idempotency_key = (event_of x).idempotency_key;
      } in
      elim (Bool-cases (has_event events event)) [
        | inl old ↦ rw old (omega (arith, length-without_existing records))
        | inr new ↦ rw new (omega (arith, length-without_existing records))
      ]

  -- At least one record goes if one is stored.
  pub length-without_existing-Stored :
      (records : List SpanRecord)
      → InProject project records
      → Any (Stored events) records
      → length (without_existing events project records) < length records
  length-without_existing-Stored [] p h = absurd h
  length-without_existing-Stored (x ∷ records) p h =
      let event : RunEvent = record {
        project_name = project;
        idempotency_key = (event_of x).idempotency_key;
      } in
      let it : event_of x ≡ event =
        λ i. record { project_name = p.0 i; idempotency_key = (event_of x).idempotency_key } in
      elim (Bool-cases (has_event events event)) [
        | inl old ↦ rw old (omega (arith, length-without_existing records))
        | inr new ↦ elim h [
          | inl stored ↦ absurd (clash (ap (has_event events) (sym it) ∙ stored) new)
          | inr later ↦ rw new (omega (arith, length-without_existing-Stored records p.1 later))
        ]
      ]
    where
      clash : {b : Bool} → b ≡ true → b ≡ false → ⊥
      clash e f = cc

pub validate_partition_records-InPartition :
    (partition : PartitionKey) (records : List SpanRecord)
    → InPartition partition records
    → validate_partition_records partition records ≡ ok tt
unfolding validate_partition_records
validate_partition_records-InPartition partition [] h = refl
validate_partition_records-InPartition partition (x ∷ records) h =
    rw (ap (λ k. key_eq k partition) h.0 ∙ key_eq_refl partition)
      (validate_partition_records-InPartition partition records h.1)

pub InPartition-InProject :
    (partition : PartitionKey) (records : List SpanRecord)
    → InPartition partition records
    → InProject partition.project_name records
unfolding record_partition_key
InPartition-InProject partition records =
    All-imp (λ r. record_partition_key r ≡ partition) (λ r. r.project_name ≡ partition.project_name)
      records (λ r e. ap (λ k. k.project_name) e)
