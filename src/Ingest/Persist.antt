-- ===== src/Ingest/Persist.antt =====
-- `persist_partition_records` of src/ingest.rs: the lookup of duplicates, and one segment per round.
-- Of the database the model has the table `run_events`, whose constraint on project and idempotency
-- key decides. What others do is explicit: in each round, before the lookup and before the segment's
-- transaction, other nodes may have committed events, and the calls of the backends may fail.
pub mod Saved
pub mod Progress
pub mod Repeated
use kevindb.Base.{
  ℕ, zero, suc, ◌+◌, min, max, Bool, true, false, ◌&&◌, ◌||◌, Option, none, some, List, [], ◌∷◌,
  ◌++◌, map, length, take, drop, if◌then◌else◌,
}
use kevindb.Base.Text.{Text, text_eq}
use kevindb.Base.Result.{Result, ok, err, ◌>>=◌}
use kevindb.Ingest.{
  SpanRecord, PartitionKey, PersistFailure, backend_failed, validate_partition_records,
}
use kevindb.Ingest.Keys.{run_event_idempotency_key, segment_uri}

-- The constrained columns of a row of `run_events`.
pub record RunEvent : Type 0 where
  pub project_name : Text
  pub idempotency_key : Text

abbrev pub event_of : SpanRecord → RunEvent
event_of span_record = record {
  project_name = span_record.project_name;
  idempotency_key = run_event_idempotency_key span_record;
}

abbrev pub same_event : RunEvent → RunEvent → Bool
same_event left right =
    text_eq left.project_name right.project_name
    && text_eq left.idempotency_key right.idempotency_key

abbrev pub has_event : List RunEvent → RunEvent → Bool
has_event [] event = false
has_event (stored ∷ events) event = same_event stored event || has_event events event

pub record FlushReceipt : Type 0 where
  pub segment_uri : Text
  pub span_count : ℕ
  pub total_bytes : ℕ

pub data Fault : Type 0 where
  no_fault : Fault
  before_commit : Text → Fault
  commit_unacknowledged : Text → Fault

-- What the environment does in one round of the loop.
pub record Round : Type 0 where
  pub before_lookup : List RunEvent
  pub lookup_fault : Option Text
  pub before_insert : List RunEvent
  pub write_fault : Fault
  pub now : ℕ
  pub sequence : ℕ
  pub payload_len : ℕ

pub record PersistError : Type 0 where
  pub records : List SpanRecord
  pub error : PersistFailure

pub data PersistSegmentResult : Type 0 where
  written : FlushReceipt → PersistSegmentResult
  duplicate_conflict : List SpanRecord → PersistSegmentResult

-- The rows of `run_events` that have the project and one of the keys are in the set.
abbrev pub without_existing : List RunEvent → Text → List SpanRecord → List SpanRecord
without_existing events project [] = []
without_existing events project (span_record ∷ records) =
    let rest = without_existing events project records in
    let event : RunEvent = record {
      project_name = project;
      idempotency_key = run_event_idempotency_key span_record;
    } in
    if has_event events event then rest else span_record ∷ rest

abbrev pub lookup_result :
    Option Text
    → List RunEvent
    → SpanRecord
    → List SpanRecord
    → Result PersistError (List SpanRecord)
lookup_result (some e) events first records =
    err (record { records = first ∷ records; error = backend_failed e })
lookup_result none events first records =
    ok (without_existing events first.project_name (first ∷ records))

unfoldable pub filter_duplicate_records :
    Round → List RunEvent → List SpanRecord → Result PersistError (List SpanRecord)
filter_duplicate_records round events [] = ok []
filter_duplicate_records round events (first ∷ records) =
    lookup_result round.lookup_fault events first records

-- The loop of `persist_metadata` over `run_events`: nothing if a row is in the way.
abbrev pub insert_run_events : List SpanRecord → List RunEvent → Option (List RunEvent)
insert_run_events [] events = some events
insert_run_events (span_record ∷ records) events =
    let rest = insert_run_events records (event_of span_record ∷ events) in
    if has_event events (event_of span_record) then none else rest

-- The outcome of the writes, by the fault and the rows in the transaction. A transaction that is
-- rolled back leaves the table; a commit may arrive without the answer.
abbrev pub write_segment :
    Fault
    → Option (List RunEvent)
    → List RunEvent
    → List SpanRecord
    → FlushReceipt
    → Result PersistError PersistSegmentResult × List RunEvent
write_segment (before_commit e) inserted events records receipt =
    (err (record { records = records; error = backend_failed e }), events)
write_segment no_fault none events records receipt = (ok (duplicate_conflict records), events)
write_segment no_fault (some more) events records receipt = (ok (written receipt), more)
write_segment (commit_unacknowledged e) none events records receipt =
    (ok (duplicate_conflict records), events)
write_segment (commit_unacknowledged e) (some more) events records receipt =
    (err (record { records = records; error = backend_failed e }), more)

abbrev pub place_segment :
    Round
    → List RunEvent
    → List SpanRecord
    → Result PersistFailure Text
    → Result PersistError PersistSegmentResult × List RunEvent
place_segment round events records (err e) = (err (record { records = records; error = e }), events)
place_segment round events records (ok uri) =
    write_segment round.write_fault (insert_run_events records events) events records
      (record { segment_uri = uri; span_count = length records; total_bytes = round.payload_len })

unfoldable pub persist_segment :
    Round
    → PartitionKey
    → List RunEvent
    → List SpanRecord
    → Result PersistError PersistSegmentResult × List RunEvent
persist_segment round partition events records = place_segment round events records (
    validate_partition_records partition records >>= λ valid.
    segment_uri partition records round.now round.sequence)

-- How the loop ends, with the table: or it is still running when the rounds are over.
pub data Persisted : Type 0 where
  finished : List FlushReceipt → List RunEvent → Persisted
  failed : PersistError → List RunEvent → Persisted
  running : List SpanRecord → List RunEvent → Persisted

abbrev pub max_spans_per_segment : ℕ → ℕ
max_spans_per_segment configured = max configured 1

-- The further rounds, by the records that remain, the receipts and the table.
abbrev Continue : Type 0
Continue = List SpanRecord → List FlushReceipt → List RunEvent → Persisted

abbrev pub after_segment :
    Continue
    → List FlushReceipt
    → List SpanRecord
    → Result PersistError PersistSegmentResult × List RunEvent
    → Persisted
after_segment continue receipts rest (ok (written receipt), events) =
    continue rest (receipts ++ (receipt ∷ [])) events
after_segment continue receipts rest (ok (duplicate_conflict records), events) =
    continue (records ++ rest) receipts events
after_segment continue receipts rest (err error, events) =
    failed (record error { records = error.records ++ rest }) events

module _ (configured : ℕ) (partition : PartitionKey) where
  abbrev pub after_lookup :
      Continue
      → Round
      → List FlushReceipt
      → List RunEvent
      → Result PersistError (List SpanRecord)
      → Persisted
  after_lookup continue round receipts events (err error) = failed error events
  after_lookup continue round receipts events (ok []) = finished receipts events
  after_lookup continue round receipts events (ok (first ∷ records)) =
      let remaining = first ∷ records in
      let count = min (max_spans_per_segment configured) (length remaining) in
      after_segment continue receipts (drop count remaining)
        (persist_segment round partition (round.before_insert ++ events) (take count remaining))

  abbrev pub persist_rounds :
      List Round → List SpanRecord → List FlushReceipt → List RunEvent → Persisted
  persist_rounds [] records receipts events = running records events
  persist_rounds (round ∷ rounds) records receipts events =
      let events_now = round.before_lookup ++ events in
      after_lookup (persist_rounds rounds) round receipts events_now
        (filter_duplicate_records round events_now records)

  unfoldable pub persist_partition_records :
      List Round → List SpanRecord → List RunEvent → Persisted
  persist_partition_records rounds records events = persist_rounds rounds records [] events
