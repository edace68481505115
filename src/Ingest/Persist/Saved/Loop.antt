-- ===== src/Ingest/Persist/Saved/Loop.antt =====
-- The rounds of `persist_partition_records` of src/ingest.rs, by the records they are given.
use kevindb.Base.{
  ℕ, min, ◌≡◌, refl, sym, ◌∙◌, subst, inl, inr, Option, none, some, List, [], ◌∷◌, ◌++◌, take, drop,
  length, take-append-drop, All-drop, Any-append_right, Any-append_cases,
}
use kevindb.Base.Text.{Text}
use kevindb.Base.Result.{Result, ok, err}
use kevindb.Ingest.{SpanRecord, PartitionKey, PersistFailure}
use kevindb.Ingest.Persist.{
  RunEvent, event_of, FlushReceipt, Fault, no_fault, before_commit, commit_unacknowledged, Round,
  without_existing, filter_duplicate_records, lookup_result, insert_run_events, write_segment,
  place_segment, persist_segment, max_spans_per_segment, after_segment, after_lookup,
  persist_rounds, persist_partition_records, Continue,
}
use kevindb.Ingest.Persist.Saved.{
  Kept, Saved, SavedIn, InProject, has_event-append, without_existing-Saved,
  insert_run_events-grows, insert_run_events-Stored, All-without_existing, All-Kept,
}

module _ (project : Text) (r : SpanRecord) where
  -- Further rounds save the record.
  abbrev Saves : Continue → Type 0
  Saves continue =
      (records : List SpanRecord) (receipts : List FlushReceipt) (events : List RunEvent)
      → InProject project records
      → Saved events records r
      → SavedIn r (continue records receipts events)

  module _ (continue : Continue) (saves : Saves continue) (receipts : List FlushReceipt)
      (segment rest : List SpanRecord) (in_project : InProject project (segment ++ rest))
      (rest_in_project : InProject project rest) (events : List RunEvent)
      (saved : Saved events (segment ++ rest) r) where
    committed :
        (more : List RunEvent) → insert_run_events segment events ≡ some more → Saved more rest r
    committed more done = elim saved [
      | inl stored ↦ inl (insert_run_events-grows segment events more (event_of r) done stored)
      | inr kept ↦ elim (Any-append_cases (λ x. x ≡ r) segment rest kept) [
        | inl here ↦ inl (insert_run_events-Stored segment events more r done here)
        | inr later ↦ inr later
      ]
    ]

    wider : (more : List RunEvent) → Saved more rest r → Saved more (segment ++ rest) r
    wider more (inl stored) = inl stored
    wider more (inr kept) = inr (Any-append_right (λ x. x ≡ r) segment rest kept)

    write_segment-SavedIn :
        (fault : Fault) (inserted : Option (List RunEvent)) (receipt : FlushReceipt)
        → insert_run_events segment events ≡ inserted
        → SavedIn r (
            after_segment continue receipts rest
              (write_segment fault inserted events segment receipt))
    write_segment-SavedIn (before_commit e) inserted receipt h = saved
    write_segment-SavedIn no_fault none receipt h =
        saves (segment ++ rest) receipts events in_project saved
    write_segment-SavedIn no_fault (some more) receipt h =
        saves rest (receipts ++ (receipt ∷ [])) more rest_in_project (committed more h)
    write_segment-SavedIn (commit_unacknowledged e) none receipt h =
        saves (segment ++ rest) receipts events in_project saved
    write_segment-SavedIn (commit_unacknowledged e) (some more) receipt h =
        wider more (committed more h)

    place_segment-SavedIn :
        (round : Round) (uri : Result PersistFailure Text)
        → SavedIn r (after_segment continue receipts rest (place_segment round events segment uri))
    place_segment-SavedIn round (err e) = saved
    place_segment-SavedIn round (ok uri) =
        write_segment-SavedIn round.write_fault (insert_run_events segment events) _ refl

  module _ (configured : ℕ) (partition : PartitionKey) where
    after_lookup-SavedIn :
        (continue : Continue) (round : Round) (receipts : List FlushReceipt)
        (events : List RunEvent) (remaining : List SpanRecord)
        → Saves continue
        → InProject project remaining
        → Saved events remaining r
        → SavedIn r
            (after_lookup configured partition continue round receipts events (ok remaining))
    unfolding persist_segment
    after_lookup-SavedIn continue round receipts events [] saves p (inl stored) = stored
    after_lookup-SavedIn continue round receipts events [] saves p (inr kept) = absurd kept
    after_lookup-SavedIn continue round receipts events (first ∷ records) saves p saved =
        let count = min (max_spans_per_segment configured) (length (first ∷ records)) in
        let parts = take-append-drop count (first ∷ records) in
        place_segment-SavedIn continue saves receipts (take count (first ∷ records))
          (drop count (first ∷ records)) (subst (InProject project) (sym parts) p)
          (All-drop (λ x. x.project_name ≡ project) count (first ∷ records) p)
          (round.before_insert ++ events) (again parts saved) round _
      where
        again :
            {whole : List SpanRecord}
            → whole ≡ first ∷ records
            → Saved events (first ∷ records) r
            → Saved (round.before_insert ++ events) whole r
        again e (inl stored) = inl (has_event-append round.before_insert events (event_of r) stored)
        again e (inr kept) = inr (subst (λ w. Kept w r) (sym e) kept)

    lookup-SavedIn :
        (continue : Continue) (round : Round) (receipts : List FlushReceipt)
        (events : List RunEvent) (fault : Option Text) (first : SpanRecord)
        (records : List SpanRecord)
        → Saves continue
        → InProject project (first ∷ records)
        → Saved events (first ∷ records) r
        → SavedIn r (
            after_lookup configured partition continue round receipts events
              (lookup_result fault events first records))
    lookup-SavedIn continue round receipts events (some e) first records saves p saved = saved
    lookup-SavedIn continue round receipts events none first records saves p saved =
        after_lookup-SavedIn continue round receipts events
          (without_existing events first.project_name (first ∷ records)) saves
          (All-without_existing (λ x. x.project_name ≡ project) events first.project_name
            (first ∷ records) p)
          (elim saved [
            | inl stored ↦ inl stored
            | inr kept ↦
                without_existing-Saved events first.project_name (first ∷ records) r
                  (All-Kept (λ x. x.project_name ≡ project) (first ∷ records) r p kept ∙ sym p.0)
                  kept
          ])

    persist_rounds-SavedIn :
        (rounds : List Round) → Saves (persist_rounds configured partition rounds)
    unfolding filter_duplicate_records
    persist_rounds-SavedIn [] records receipts events p saved = saved
    persist_rounds-SavedIn (round ∷ rounds) [] receipts events p (inl stored) =
        has_event-append round.before_lookup events (event_of r) stored
    persist_rounds-SavedIn (round ∷ rounds) [] receipts events p (inr kept) = absurd kept
    persist_rounds-SavedIn (round ∷ rounds) (first ∷ records) receipts events p saved =
        lookup-SavedIn (persist_rounds configured partition rounds) round receipts
          (round.before_lookup ++ events) round.lookup_fault first records
          (persist_rounds-SavedIn rounds) p
          (elim saved [
            | inl stored ↦ inl (has_event-append round.before_lookup events (event_of r) stored)
            | inr kept ↦ inr kept
          ])

-- No record is lost, whatever other nodes commit meanwhile and whichever calls fail: when the records
-- of one project are persisted, each of them has its event in the table at the end, or it is among
-- the records of the error (or among those that remain, if the rounds are over before the loop).
-- Where the result is a success, each has its event in the table.
pub persist_partition_records-SavedIn :
    (configured : ℕ) (partition : PartitionKey) (project : Text) (rounds : List Round)
    (records : List SpanRecord) (events : List RunEvent) (r : SpanRecord)
    → InProject project records
    → Kept records r
    → SavedIn r (persist_partition_records configured partition rounds records events)
unfolding persist_partition_records
persist_partition_records-SavedIn configured partition project rounds records events r p kept =
    persist_rounds-SavedIn project r configured partition rounds records [] events p (inr kept)
