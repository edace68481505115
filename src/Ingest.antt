-- ===== src/Ingest.antt =====
-- Records and their partitions: src/record.rs and the partition keys of src/ingest.rs. Strings are
-- their UTF-8 bytes here.
pub mod Partitions
pub mod Keys
pub mod Persist
pub mod Pending
pub mod Flush
use kevindb.Base.{
  ℕ, ◌+◌, ◌*◌, ◌≡◌, Bool, true, false, ◌&&◌, ◌||◌, Option, none, some, List, [], ◌∷◌, ◌++◌, ltb,
  ◌==◌, if◌then◌else◌,
}
use kevindb.Base.Text.{Text, text_eq}
use kevindb.Base.Int.{ℤ, pos, negsuc, int_eq, int_leb, div_euclid, saturating_mul}
use kevindb.Base.Result.{Result, ok, err}
use kevindb.Search.Terms.{leb_bytes}

pub data RunEventKind : Type 0 where
  start update end compact tombstone : RunEventKind

pub record SpanRecord : Type 0 where
  pub project_name : Text
  pub run_id : Text
  pub trace_id : Text
  pub span_id : Text
  pub parent_run_id : Option Text
  pub parent_span_id : Option Text
  pub name : Text
  pub run_type : Text
  pub start_time_unix_nano : ℤ
  pub end_time_unix_nano : ℤ
  pub status_code : ℤ
  pub event_kind : RunEventKind
  pub attributes_json : Text
  pub idempotency_key : Option Text

abbrev pub ingest_time_bucket_unix_nanos : ℕ
ingest_time_bucket_unix_nanos = 60 * 60 * 1000000000

pub record PartitionKey : Type 0 where
  pub project_name : Text
  pub time_bucket_start_unix_nano : ℤ

abbrev pub key_eq : PartitionKey → PartitionKey → Bool
key_eq left right =
    text_eq left.project_name right.project_name
    && int_eq left.time_bucket_start_unix_nano right.time_bucket_start_unix_nano

-- The derived order: by project, then by bucket.
abbrev pub key_leb : PartitionKey → PartitionKey → Bool
key_leb left right =
    if text_eq left.project_name right.project_name
    then int_leb left.time_bucket_start_unix_nano right.time_bucket_start_unix_nano
    else leb_bytes left.project_name right.project_name

unfoldable pub record_partition_key : SpanRecord → PartitionKey
record_partition_key span_record = record {
  project_name = span_record.project_name;
  time_bucket_start_unix_nano =
      saturating_mul (div_euclid span_record.start_time_unix_nano ingest_time_bucket_unix_nanos)
        ingest_time_bucket_unix_nanos;
}

-- A `BTreeMap` by partition, as the list of its entries in order.
abbrev pub Groups : Type 0
Groups = List (PartitionKey × List SpanRecord)

abbrev pub has_group : Groups → PartitionKey → Bool
has_group [] key = false
has_group ((k, records) ∷ groups) key = key_eq k key || has_group groups key

abbrev pub push_to_group : PartitionKey → SpanRecord → Groups → Groups
push_to_group key span_record [] = []
push_to_group key span_record ((k, records) ∷ groups) =
    let rest = push_to_group key span_record groups in
    if key_eq k key then (k, records ++ (span_record ∷ [])) ∷ groups else (k, records) ∷ rest

abbrev pub insert_group : PartitionKey → List SpanRecord → Groups → Groups
insert_group key new [] = (key, new) ∷ []
insert_group key new ((k, records) ∷ groups) =
    let rest = insert_group key new groups in
    if key_leb key k then (key, new) ∷ (k, records) ∷ groups else (k, records) ∷ rest

-- `entry(key).or_insert_with(Vec::new).push(record)`
abbrev pub group_record : SpanRecord → Groups → Groups
group_record span_record groups =
    let key = record_partition_key span_record in
    if has_group groups key
    then push_to_group key span_record groups
    else insert_group key (span_record ∷ []) groups

abbrev pub group_into : Groups → List SpanRecord → Groups
group_into groups [] = groups
group_into groups (span_record ∷ records) = group_into (group_record span_record groups) records

unfoldable pub group_records_by_partition : List SpanRecord → Groups
group_records_by_partition records = group_into [] records

pub data PersistFailure : Type 0 where
  partition_mismatch empty_records clock_before_epoch : PersistFailure
  backend_failed : Text → PersistFailure

unfoldable pub validate_partition_records :
    PartitionKey → List SpanRecord → Result PersistFailure (Unit {0})
validate_partition_records partition [] = ok tt
validate_partition_records partition (span_record ∷ records) =
    if key_eq (record_partition_key span_record) partition
    then validate_partition_records partition records
    else err partition_mismatch
