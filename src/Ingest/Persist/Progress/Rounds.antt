-- ===== src/Ingest/Persist/Progress/Rounds.antt =====
-- The rounds that the loop needs.
use kevindb.Base.{
  ℕ, ◌+◌, ◌*◌, ◌≤◌, ◌<◌, min, ◌≡◌, refl, sym, subst, arith, inl, inr, ◌⊎◌, Option, none, some, List,
  [], ◌∷◌, ◌++◌, take, drop, length, length-take, length-drop, take-append-drop, All-drop, All-take,
  All, All-append, Any, Any-append_left,
}
use kevindb.Base.Result.{ok}
use kevindb.Ingest.{SpanRecord, PartitionKey, record_partition_key}
use kevindb.Ingest.Keys.{segment_uri}
use kevindb.Ingest.Persist.{
  RunEvent, FlushReceipt, no_fault, Round, without_existing, filter_duplicate_records,
  insert_run_events, write_segment, persist_segment, max_spans_per_segment, after_segment,
  after_lookup, persist_rounds, persist_partition_records, Continue,
}
use kevindb.Ingest.Persist.Saved.{Stored, InProject, All-without_existing}
use kevindb.Ingest.Persist.Progress.{
  InPartition-InProject, Faultless, DistinctEvents, InPartition, SegmentSize, Completes,
  DistinctEvents-drop, DistinctEvents-take, insert_run_events-none, Stored-append,
  DistinctEvents-without_existing, length-without_existing, length-without_existing-Stored,
  validate_partition_records-InPartition,
}

-- Two rounds for each record and one more, or one fewer if the next lookup drops a record.
abbrev Budget : List Round → List RunEvent → List SpanRecord → Type 0
Budget rounds events records =
    (2 * length records + 1 ≤ length rounds)
    ⊎ ((2 * length records ≤ length rounds) × Any (Stored events) records)

module _ (configured : ℕ) (partition : PartitionKey) where
  -- Further rounds complete, whenever there are enough of them.
  abbrev Enough : List Round → Continue → Type 0
  Enough rounds continue =
      (records : List SpanRecord) (receipts : List FlushReceipt) (events : List RunEvent)
      → InPartition partition records
      → DistinctEvents records
      → All (SegmentSize configured) receipts
      → Budget rounds events records
      → Completes configured (continue records receipts events)

  module _ (rounds : List Round) (continue : Continue) (enough : Enough rounds continue)
      (receipts : List FlushReceipt) (sizes : All (SegmentSize configured) receipts) where
    write_segment-Completes :
        (segment rest : List SpanRecord) (events : List RunEvent) (receipt : FlushReceipt)
        (inserted : Option (List RunEvent))
        → insert_run_events segment events ≡ inserted
        → InPartition partition (segment ++ rest)
        → InPartition partition rest
        → DistinctEvents segment
        → DistinctEvents (segment ++ rest)
        → DistinctEvents rest
        → SegmentSize configured receipt
        → 2 * length (segment ++ rest) ≤ length rounds
        → 2 * length rest + 1 ≤ length rounds
        → Completes configured (
            after_segment continue receipts rest
              (write_segment no_fault inserted events segment receipt))
    write_segment-Completes segment rest events receipt none h p q d e f size more fewer =
        enough (segment ++ rest) receipts events p e sizes (
          inr (
            more,
            Any-append_left (Stored events) segment rest
                (insert_run_events-none segment events d h),
          ))
    write_segment-Completes segment rest events receipt (some stored) h p q d e f size more fewer =
        enough rest (receipts ++ (receipt ∷ [])) stored q f
          (All-append (SegmentSize configured) receipts (receipt ∷ []) sizes (size, tt)) (inl fewer)

    persist_segment-Completes :
        (round : Round) (events : List RunEvent) (segment rest : List SpanRecord)
        → round.write_fault ≡ no_fault
        → InPartition partition segment
        → InPartition partition (segment ++ rest)
        → InPartition partition rest
        → DistinctEvents segment
        → DistinctEvents (segment ++ rest)
        → DistinctEvents rest
        → 0 < length segment
        → length segment ≤ max_spans_per_segment configured
        → 2 * length (segment ++ rest) ≤ length rounds
        → 2 * length rest + 1 ≤ length rounds
        → Completes configured
            (after_segment continue receipts rest (persist_segment round partition events segment))
    unfolding persist_segment segment_uri
    persist_segment-Completes round events [] rest quiet v p q d e f long short more fewer =
        absurd (omega arith)
    persist_segment-Completes round events (x ∷ segment) rest quiet v p q d e f long short more
          fewer =
        rw (validate_partition_records-InPartition partition (x ∷ segment) v, quiet)
          (write_segment-Completes (x ∷ segment) rest events _
            (insert_run_events (x ∷ segment) events) refl p q d e f (long, short) more fewer)

    after_lookup-Completes :
        (round : Round) (events : List RunEvent) (remaining : List SpanRecord)
        → round.write_fault ≡ no_fault
        → InPartition partition remaining
        → DistinctEvents remaining
        → 2 * length remaining ≤ length rounds
        → Completes configured
            (after_lookup configured partition continue round receipts events (ok remaining))
    after_lookup-Completes round events [] quiet p d budget = sizes
    after_lookup-Completes round events (first ∷ records) quiet p d budget =
        let remaining = first ∷ records in
        let count = min (max_spans_per_segment configured) (length remaining) in
        let parts = sym (take-append-drop count remaining) in
        let taken = length-take count remaining (omega arith) in
        let dropped = length-drop count remaining in
        persist_segment-Completes round (round.before_insert ++ events) (take count remaining)
          (drop count remaining) quiet
          (All-take (λ r. record_partition_key r ≡ partition) count remaining p)
          (subst (InPartition partition) parts p)
          (All-drop (λ r. record_partition_key r ≡ partition) count remaining p)
          (DistinctEvents-take count remaining d) (subst DistinctEvents parts d)
          (DistinctEvents-drop count remaining d) (omega (arith, taken)) (omega (arith, taken))
          (subst (λ w. 2 * length w ≤ length rounds) parts budget) (omega (arith, dropped))

  persist_rounds-Completes :
      (rounds : List Round)
      → All Faultless rounds
      → Enough rounds (persist_rounds configured partition rounds)
  unfolding filter_duplicate_records persist_segment
  persist_rounds-Completes [] quiet records receipts events p d sizes (inl budget) =
      absurd (omega arith)
  persist_rounds-Completes [] quiet [] receipts events p d sizes (inr (budget, stored)) =
      absurd stored
  persist_rounds-Completes [] quiet (r ∷ records) receipts events p d sizes (inr (budget, stored)) =
      absurd (omega arith)
  persist_rounds-Completes (round ∷ rounds) quiet [] receipts events p d sizes budget = sizes
  persist_rounds-Completes (round ∷ rounds) quiet (first ∷ records) receipts events p d sizes
        budget =
      let now = round.before_lookup ++ events in
      let whole = first ∷ records in
      let remaining = without_existing now first.project_name whole in
      let project = InPartition-InProject partition whole p in
      let same_project : InProject first.project_name whole =
        subst (λ t. InProject t whole) (sym project.0) project in
      rw (quiet.0.0) (
        after_lookup-Completes rounds (persist_rounds configured partition rounds)
          (persist_rounds-Completes rounds quiet.1) receipts sizes round now remaining quiet.0.1
          (All-without_existing (λ r. record_partition_key r ≡ partition) now first.project_name
            whole p)
          (DistinctEvents-without_existing now first.project_name whole d)
          (elim budget [
            | inl all ↦ omega (arith, all, length-without_existing now first.project_name whole)
            | inr (all, stored) ↦ omega (
              arith,
              all,
              length-without_existing-Stored now first.project_name whole same_project
                  (Stored-append round.before_lookup events whole stored),
            )
          ]))

-- When the records of a partition have different events and no call fails, the loop ends after at
-- most two rounds for each record and one more, in a success, whatever other nodes commit in
-- between: each conflict makes the next lookup drop a record. No segment is empty or has more
-- records than configured (one, where none are configured).
pub persist_partition_records-Completes :
    (configured : ℕ) (partition : PartitionKey) (rounds : List Round) (records : List SpanRecord)
    (events : List RunEvent)
    → All Faultless rounds
    → InPartition partition records
    → DistinctEvents records
    → 2 * length records + 1 ≤ length rounds
    → Completes configured (persist_partition_records configured partition rounds records events)
unfolding persist_partition_records
persist_partition_records-Completes configured partition rounds records events quiet p d enough =
    persist_rounds-Completes configured partition rounds quiet records [] events p d tt (inl enough)
