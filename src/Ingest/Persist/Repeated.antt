-- ===== src/Ingest/Persist/Repeated.antt =====
-- A batch that has one event twice, in `persist_partition_records` of src/ingest.rs.
use kevindb.Base.{
  ℕ, ◌≤◌, min, ◌≡◌, refl, sym, ap, ◌∙◌, arith, true, false, none, List, [], ◌∷◌, ◌++◌, take, drop,
  All,
}
use kevindb.Base.Result.{ok}
use kevindb.Ingest.{SpanRecord, PartitionKey}
use kevindb.Ingest.Keys.{segment_uri}
use kevindb.Ingest.Persist.{
  RunEvent, event_of, same_event, has_event, no_fault, Round, FlushReceipt,
  filter_duplicate_records, insert_run_events, persist_segment, running, lookup_result,
  without_existing, duplicate_conflict, after_lookup, after_segment, max_spans_per_segment,
  persist_rounds, persist_partition_records,
}
use kevindb.Ingest.Persist.Saved.{same_event_refl}
use kevindb.Ingest.Persist.Progress.{InPartition, validate_partition_records-InPartition}

-- No call fails, and no other node commits.
abbrev pub Alone : Round → Type 0
Alone round =
    (round.lookup_fault ≡ none)
    × (round.write_fault ≡ no_fault)
    × (round.before_lookup ≡ [])
    × (round.before_insert ≡ [])

module _ (configured : ℕ) (partition : PartitionKey) (x y : SpanRecord) (events : List RunEvent)
    (p : InPartition partition (x ∷ y ∷ [])) (same : event_of x ≡ event_of y)
    (new : has_event events (event_of x) ≡ false) (large : 2 ≤ configured) where
  whole_count : min (max_spans_per_segment configured) 2 ≡ 2
  whole_count = omega (arith, large)

  repeated_conflict : insert_run_events (x ∷ y ∷ []) events ≡ none
  repeated_conflict =
      let again : same_event (event_of x) (event_of y) ≡ true =
        ap (same_event (event_of x)) (sym same) ∙ same_event_refl (event_of x) in
      rw (new, again) refl

  repeated_lookup : without_existing events x.project_name (x ∷ y ∷ []) ≡ x ∷ y ∷ []
  repeated_lookup =
      let new_too : has_event events (record {
        project_name = x.project_name;
        idempotency_key = (event_of y).idempotency_key;
      })
          ≡ false =
        ap
          (λ e.
            has_event events
              (record { project_name = x.project_name; idempotency_key = e.idempotency_key }))
          (sym same)
        ∙ new in
      rw (new, new_too) refl

  repeated_segment :
      (round : Round)
      → round.write_fault ≡ no_fault
      → persist_segment round partition events (x ∷ y ∷ [])
        ≡ (ok (duplicate_conflict (x ∷ y ∷ [])), events)
  unfolding persist_segment segment_uri
  repeated_segment round quiet =
      rw (validate_partition_records-InPartition partition (x ∷ y ∷ []) p, quiet, repeated_conflict)
        refl

  repeated_round :
      (rounds : List Round) (receipts : List FlushReceipt)
      → All Alone rounds
      → persist_rounds configured partition rounds (x ∷ y ∷ []) receipts events
        ≡ running (x ∷ y ∷ []) events
  unfolding filter_duplicate_records
  repeated_round [] receipts alone = refl
  repeated_round (round ∷ rounds) receipts alone =
      let segment : persist_segment round partition (round.before_insert ++ events) (x ∷ y ∷ [])
          ≡ (ok (duplicate_conflict (x ∷ y ∷ [])), events) =
        ap (λ arrived. persist_segment round partition (arrived ++ events) (x ∷ y ∷ [])) alone.0.3
        ∙ repeated_segment round alone.0.1 in
      let found : filter_duplicate_records round (round.before_lookup ++ events) (x ∷ y ∷ [])
          ≡ ok (x ∷ y ∷ []) =
        ap (λ arrived. lookup_result round.lookup_fault (arrived ++ events) x (y ∷ [])) alone.0.2
        ∙ ap (λ fault. lookup_result fault events x (y ∷ [])) alone.0.0
        ∙ ap ok repeated_lookup in
      ap
        (after_lookup configured partition (persist_rounds configured partition rounds) round
          receipts (round.before_lookup ++ events))
        found
      ∙ ap
          (λ arrived.
            after_lookup configured partition (persist_rounds configured partition rounds) round
              receipts (arrived ++ events) (ok (x ∷ y ∷ [])))
          alone.0.2
      ∙ ap
          (λ count.
            after_segment (persist_rounds configured partition rounds) receipts
              (drop count (x ∷ y ∷ []))
              (persist_segment round partition (round.before_insert ++ events)
                (take count (x ∷ y ∷ []))))
          whole_count
      ∙ ap (after_segment (persist_rounds configured partition rounds) receipts []) segment
      ∙ repeated_round rounds receipts alone.1

-- Two records of one event in one segment keep the loop running: if the event is not stored and no
-- other node stores it, then after any number of rounds without faults both records remain and the
-- table is as before. The first record's row is in the way of the second's, the rollback takes it
-- away, and the next lookup finds nothing.
pub persist_partition_records-repeated :
    (configured : ℕ) (partition : PartitionKey) (rounds : List Round) (x y : SpanRecord)
    (events : List RunEvent)
    → InPartition partition (x ∷ y ∷ [])
    → event_of x ≡ event_of y
    → has_event events (event_of x) ≡ false
    → 2 ≤ configured
    → All Alone rounds
    → persist_partition_records configured partition rounds (x ∷ y ∷ []) events
      ≡ running (x ∷ y ∷ []) events
unfolding persist_partition_records
persist_partition_records-repeated configured partition rounds x y events p same new large alone =
    repeated_round configured partition x y events p same new large rounds [] alone
