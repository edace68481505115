-- ===== src/Tests/Ingest.antt =====
-- Ingest on two records: an update before the epoch, and one of the next hour.
use kevindb.Base.{
  ℕ, ◌+◌, ◌≤◌, ◌<◌, ◌≡◌, refl, arith, inl, inr, ◌⊎◌, none, some, List, [], ◌∷◌, ◌++◌, length,
}
use kevindb.Base.Text.{Text, text}
use kevindb.Base.Int.{ℤ, pos, negsuc, from_least}
use kevindb.Base.Result.{ok}
use kevindb.Ingest.{
  SpanRecord, update, PartitionKey, record_partition_key, group_records_by_partition,
  ingest_time_bucket_unix_nanos,
}
use kevindb.Ingest.Partitions.{group_at, records_of}
use kevindb.Ingest.Partitions.Bounds.{record_partition_key-bounds}
use kevindb.Ingest.Partitions.Grouping.{DistinctKeys, group_records_by_partition-group_at}
use kevindb.Ingest.Keys.{
  escape_path_component, segment_uri, run_event_idempotency_key, decimal, print_int,
}
use kevindb.Ingest.Keys.Escape.{unescape, unescape-escape_path_component}
use kevindb.Ingest.Keys.Uri.{segment_uri_unique}
use kevindb.Ingest.Persist.{
  Round, no_fault, before_commit, event_of, persist_partition_records, running,
}
use kevindb.Ingest.Persist.Saved.Loop.{persist_partition_records-SavedIn}
use kevindb.Ingest.Persist.Saved.{SavedIn}
use kevindb.Ingest.Persist.Progress.{Completes}
use kevindb.Ingest.Persist.Progress.Rounds.{persist_partition_records-Completes}
use kevindb.Ingest.Persist.Repeated.{persist_partition_records-repeated}
use kevindb.Ingest.Pending.{
  IngestState, new_ingestor, Step, accept, take_batch, accept_records, started, stepped,
  start_batch, batch_of, get_buffer, buffer_or_default,
}
use kevindb.Ingest.Flush.{Durable, flush_batch, flush_batch-Durable}
use kevindb.Ingest.Pending.Writers.{OneWriter, Reachable-OneWriter}
use kevindb.Ingest.Pending.Records.{records_at, accept_records-records}
use kevindb.Ingest.Pending.Present.{Present, Settles, Brings, step-Present}

abbrev a_record : Text → ℤ → SpanRecord
a_record id start = record {
  project_name = text "demo";
  run_id = id;
  trace_id = text "t";
  span_id = id;
  parent_run_id = none;
  parent_span_id = none;
  name = text "chat";
  run_type = text "llm";
  start_time_unix_nano = start;
  end_time_unix_nano = pos 0;
  status_code = pos 0;
  event_kind = update;
  attributes_json = text "{}";
  idempotency_key = some id;
}

abbrev early : SpanRecord
early = a_record (text "a") (negsuc 0)

abbrev late : SpanRecord
late = a_record (text "b") (pos 3600000000000)

abbrev later : SpanRecord
later = a_record (text "c") (pos 3600000000001)

abbrev early_partition : PartitionKey
early_partition = record {
  project_name = text "demo";
  time_bucket_start_unix_nano = negsuc 3599999999999;
}

abbrev late_partition : PartitionKey
late_partition = record {
  project_name = text "demo";
  time_bucket_start_unix_nano = pos 3600000000000;
}

early_in_partition : record_partition_key early ≡ early_partition
unfolding record_partition_key
early_in_partition = refl

late_in_partition : record_partition_key late ≡ late_partition
unfolding record_partition_key
late_in_partition = refl

later_in_partition : record_partition_key later ≡ late_partition
unfolding record_partition_key
later_in_partition = refl

grouped :
    group_records_by_partition (late ∷ early ∷ later ∷ [])
    ≡ (early_partition, early ∷ []) ∷ (late_partition, late ∷ later ∷ []) ∷ []
unfolding group_records_by_partition record_partition_key
grouped = refl

record_partition_key-bounds_example :
    (from_least (record_partition_key early).time_bucket_start_unix_nano ≤ from_least (negsuc 0))
    × (from_least (negsuc 0)
        < from_least (record_partition_key early).time_bucket_start_unix_nano
          + ingest_time_bucket_unix_nanos)
record_partition_key-bounds_example = record_partition_key-bounds early (omega arith)

group_records_by_partition-group_at_example :
    DistinctKeys (group_records_by_partition (late ∷ early ∷ []))
    × ((key : PartitionKey)
        → group_at (group_records_by_partition (late ∷ early ∷ [])) key
          ≡ records_of key (late ∷ early ∷ []))
group_records_by_partition-group_at_example =
    group_records_by_partition-group_at (late ∷ early ∷ [])

escaped : escape_path_component (text "a/b c%") ≡ text "a%2Fb%20c%25"
unfolding escape_path_component
escaped = refl

unescape-escape_path_component_example : unescape (escape_path_component (text "a/%")) ≡ text "a/%"
unescape-escape_path_component_example =
    unescape-escape_path_component (text "a/%") (omega arith, (omega arith, (omega arith, tt)))

printed_uri :
    segment_uri early_partition (early ∷ []) 12 7
    ≡ ok (text "projects/demo/time-buckets/-3600000000000/trace-segments/12-7-t.vortex")
unfolding segment_uri escape_path_component print_int decimal
printed_uri = refl

segment_uri_unique_example :
    (early_partition ≡ early_partition) × (◌≡◌ {A = ℕ} 12 12) × (◌≡◌ {A = ℕ} 7 7)
segment_uri_unique_example =
    segment_uri_unique early_partition early_partition (early ∷ []) (early ∷ []) 12 7 12 7
      (text "projects/demo/time-buckets/-3600000000000/trace-segments/12-7-t.vortex")
      (omega arith, (omega arith, (omega arith, (omega arith, tt))))
      (omega arith, (omega arith, (omega arith, (omega arith, tt)))) printed_uri printed_uri

abbrev quiet : Round
quiet = record {
  before_lookup = [];
  lookup_fault = none;
  before_insert = [];
  write_fault = no_fault;
  now = 12;
  sequence = 7;
  payload_len = 100;
}

abbrev failing : Round
failing = record quiet { write_fault = before_commit (text "lost") }

persist_partition_records-SavedIn_example :
    SavedIn later
      (persist_partition_records 1 late_partition (quiet ∷ failing ∷ []) (late ∷ later ∷ []) [])
persist_partition_records-SavedIn_example =
    persist_partition_records-SavedIn 1 late_partition (text "demo") (quiet ∷ failing ∷ [])
      (late ∷ later ∷ []) [] later (refl, (refl, tt)) (inr (inl refl))

-- Another node commits the second record before the first round's insert.
abbrev raced : Round
raced = record quiet { before_insert = event_of later ∷ [] }

abbrev six_rounds : List Round
six_rounds = raced ∷ quiet ∷ quiet ∷ quiet ∷ quiet ∷ quiet ∷ []

persist_partition_records-Completes_example :
    Completes 2 (persist_partition_records 2 late_partition six_rounds (late ∷ later ∷ []) [])
unfolding run_event_idempotency_key
persist_partition_records-Completes_example =
    persist_partition_records-Completes 2 late_partition six_rounds (late ∷ later ∷ []) []
      (
        (refl, refl),
        ((refl, refl), ((refl, refl), ((refl, refl), ((refl, refl), ((refl, refl), tt))))),
      )
      (late_in_partition, (later_in_partition, tt)) ((refl, tt), (tt, tt)) (omega arith)

persist_partition_records-repeated_example :
    persist_partition_records 1024 late_partition (quiet ∷ quiet ∷ []) (late ∷ late ∷ []) []
    ≡ running (late ∷ late ∷ []) []
persist_partition_records-repeated_example =
    persist_partition_records-repeated 1024 late_partition (quiet ∷ quiet ∷ []) late late []
      (late_in_partition, (late_in_partition, tt)) refl refl (omega arith)
      ((refl, refl, refl, refl), ((refl, refl, refl, refl), tt))

abbrev accepted : IngestState
accepted = record new_ingestor {
  buffers = accept_records (late ∷ []) 0 [];
  next = 0 + length (group_records_by_partition (late ∷ []));
}

abbrev taken : IngestState
taken = record accepted {
  buffers = start_batch late_partition accepted.buffers;
  in_flight =
      batch_of late_partition (buffer_or_default (get_buffer accepted.buffers late_partition)) ∷ [];
}

take_late : Step accepted taken
unfolding accept_records group_records_by_partition record_partition_key
take_late = take_batch accepted late_partition refl

Reachable-OneWriter_example : OneWriter taken
Reachable-OneWriter_example =
    Reachable-OneWriter (stepped (stepped started (accept new_ingestor (late ∷ []))) take_late)

accept_records-records_example :
    records_at (accept_records (late ∷ later ∷ []) 0 []) late_partition
    ≡ records_at [] late_partition ++ records_of late_partition (late ∷ later ∷ [])
accept_records-records_example = accept_records-records (late ∷ later ∷ []) 0 [] late_partition

step-Present_example :
    (Present late accepted → Present late taken ⊎ Settles late take_late)
    × (Brings late take_late → Present late taken)
step-Present_example =
    step-Present late (Reachable-OneWriter (stepped started (accept new_ingestor (late ∷ []))))
      take_late

flush_batch-Durable_example :
    Durable later
      (flush_batch 1
        (quiet ∷ failing ∷ [])
        []
        (record { partition = late_partition; records = late ∷ later ∷ []; waiters = [] })
        new_ingestor).1
      (flush_batch 1
        (quiet ∷ failing ∷ [])
        []
        (record { partition = late_partition; records = late ∷ later ∷ []; waiters = [] })
        new_ingestor).0
flush_batch-Durable_example =
    flush_batch-Durable 1 (quiet ∷ failing ∷ []) []
      (record { partition = late_partition; records = late ∷ later ∷ []; waiters = [] })
      new_ingestor later (late_in_partition, (later_in_partition, tt)) (inr (inl refl))
