-- ===== src/Ingest/Pending.antt =====
-- The pending buffers of an `Ingestor` in src/ingest.rs, and the steps of `ingest_records` and
-- `flush` on them between two holds of the lock. A flush that persists a batch holds no lock, so that
-- any number of steps of other calls come in between. Receivers are numbers.
pub mod Buffers
pub mod Writers
pub mod Records
pub mod Present
use kevindb.Base.{
  ℕ, zero, suc, ◌+◌, ◌≡◌, Bool, true, false, ◌&&◌, ◌||◌, not, Option, none, some, List, [], ◌∷◌,
  ◌++◌, length, leb, ◌==◌, if◌then◌else◌, Any,
}
use kevindb.Ingest.{SpanRecord, PartitionKey, key_eq, key_leb, Groups, group_records_by_partition}
use kevindb.Ingest.Persist.{max_spans_per_segment}

pub record PendingBuffer : Type 0 where
  pub records : List SpanRecord
  pub waiters : List ℕ
  pub flushing : Bool

abbrev pub default_buffer : PendingBuffer
default_buffer = record { records = []; waiters = []; flushing = false }

pub record FlushBatch : Type 0 where
  pub partition : PartitionKey
  pub records : List SpanRecord
  pub waiters : List ℕ

-- A `BTreeMap` by partition, as the list of its entries in order.
abbrev pub Buffers : Type 0
Buffers = List (PartitionKey × PendingBuffer)

abbrev pub get_buffer : Buffers → PartitionKey → Option PendingBuffer
get_buffer [] key = none
get_buffer ((k, buffer) ∷ buffers) key =
    let rest = get_buffer buffers key in if key_eq k key then some buffer else rest

abbrev pub has_buffer : Buffers → PartitionKey → Bool
has_buffer [] key = false
has_buffer ((k, buffer) ∷ buffers) key = key_eq k key || has_buffer buffers key

abbrev pub replace_buffer : PartitionKey → PendingBuffer → Buffers → Buffers
replace_buffer key new [] = []
replace_buffer key new ((k, buffer) ∷ buffers) =
    let rest = replace_buffer key new buffers in
    if key_eq k key then (k, new) ∷ buffers else (k, buffer) ∷ rest

abbrev pub insert_buffer : PartitionKey → PendingBuffer → Buffers → Buffers
insert_buffer key new [] = (key, new) ∷ []
insert_buffer key new ((k, buffer) ∷ buffers) =
    let rest = insert_buffer key new buffers in
    if key_leb key k then (key, new) ∷ (k, buffer) ∷ buffers else (k, buffer) ∷ rest

abbrev pub put_buffer : PartitionKey → PendingBuffer → Buffers → Buffers
put_buffer key new buffers =
    if has_buffer buffers key then replace_buffer key new buffers else insert_buffer key new buffers

abbrev pub remove_buffer : PartitionKey → Buffers → Buffers
remove_buffer key [] = []
remove_buffer key ((k, buffer) ∷ buffers) =
    let rest = remove_buffer key buffers in if key_eq k key then rest else (k, buffer) ∷ rest

abbrev pub buffer_or_default : Option PendingBuffer → PendingBuffer
buffer_or_default none = default_buffer
buffer_or_default (some buffer) = buffer

abbrev pub none_left {ℓ} : {A : Type ℓ} → List A → Bool
none_left [] = true
none_left (x ∷ xs) = false

-- The body of the loop over the groups in `ingest_records`, without the flag.
abbrev pub buffer_group : PartitionKey → List SpanRecord → ℕ → Buffers → Buffers
buffer_group partition records waiter buffers =
    let buffer = buffer_or_default (get_buffer buffers partition) in
    put_buffer partition
      (record buffer {
        records = buffer.records ++ records;
        waiters = buffer.waiters ++ (waiter ∷ []);
      })
      buffers

-- A receiver for each group, numbered from `next`.
abbrev pub buffer_groups : Groups → ℕ → Buffers → Buffers
buffer_groups [] next buffers = buffers
buffer_groups ((partition, records) ∷ groups) next buffers =
    buffer_groups groups (next + 1) (buffer_group partition records next buffers)

-- `should_flush_now`, by the buffers that the groups went to.
abbrev pub should_flush_now : ℕ → Bool → Groups → Buffers → Bool
should_flush_now configured no_delay [] buffers = false
should_flush_now configured no_delay ((partition, records) ∷ groups) buffers =
    let after = buffer_group partition records 0 buffers in
    leb (max_spans_per_segment configured)
      (length (buffer_or_default (get_buffer after partition)).records)
    || no_delay
    || should_flush_now configured no_delay groups after

unfoldable pub accept_records : List SpanRecord → ℕ → Buffers → Buffers
accept_records records next buffers =
    buffer_groups (group_records_by_partition records) next buffers

abbrev pub is_due : PendingBuffer → Bool
is_due buffer = not buffer.flushing && not (none_left buffer.records)

abbrev pub due : Option PendingBuffer → Bool
due none = false
due (some buffer) = is_due buffer

-- The first entry that is due, by its key. There is one entry for a key.
abbrev pub find_due : Buffers → Buffers → Option PartitionKey
find_due buffers [] = none
find_due buffers ((k, buffer) ∷ entries) =
    let rest = find_due buffers entries in if due (get_buffer buffers k) then some k else rest

abbrev pub next_partition : Buffers → Option PartitionKey
next_partition buffers = find_due buffers buffers

-- The lock section at the head of the loop of `flush`, for a partition that is due.
abbrev pub batch_of : PartitionKey → PendingBuffer → FlushBatch
batch_of partition buffer = record {
  partition = partition;
  records = buffer.records;
  waiters = buffer.waiters;
}

abbrev pub emptied : PendingBuffer → PendingBuffer
emptied buffer = record { records = []; waiters = []; flushing = true }

abbrev pub start_batch : PartitionKey → Buffers → Buffers
start_batch partition buffers =
    put_buffer partition (emptied (buffer_or_default (get_buffer buffers partition))) buffers

-- `pending.buffers.values().any(|buffer| buffer.flushing)`
abbrev pub any_flushing : Buffers → Bool
any_flushing [] = false
any_flushing ((k, buffer) ∷ buffers) = buffer.flushing || any_flushing buffers

-- After `Ok`: the flag is cleared, and an entry that is empty then goes.
abbrev pub settle_some : PartitionKey → Option PendingBuffer → Buffers → Buffers
settle_some partition none buffers = buffers
settle_some partition (some buffer) buffers =
    if none_left buffer.records && none_left buffer.waiters
    then remove_buffer partition buffers
    else put_buffer partition (record buffer { flushing = false }) buffers

unfoldable pub settle_ok : PartitionKey → Buffers → Buffers
settle_ok partition buffers = settle_some partition (get_buffer buffers partition) buffers

-- After `Err`: the records that are left come back before those that arrived since; the waiters of
-- both are told and leave.
unfoldable pub settle_err : FlushBatch → List SpanRecord → Buffers → Buffers
settle_err batch left buffers =
    let buffer = buffer_or_default (get_buffer buffers batch.partition) in
    put_buffer batch.partition
      (record { records = left ++ buffer.records; waiters = []; flushing = false }) buffers

abbrev pub told_err : FlushBatch → Buffers → List ℕ
told_err batch buffers =
    batch.waiters ++ (buffer_or_default (get_buffer buffers batch.partition)).waiters

-- The buffers, the batches that flushes of this node persist at the moment, the receivers that have
-- their answer, and the number of the next one.
pub record IngestState : Type 0 where
  pub buffers : Buffers
  pub in_flight : List FlushBatch
  pub told : List ℕ
  pub next : ℕ

abbrev pub remove_batch : PartitionKey → List FlushBatch → List FlushBatch
remove_batch key [] = []
remove_batch key (batch ∷ batches) =
    let rest = remove_batch key batches in
    if key_eq batch.partition key then batches else batch ∷ rest

abbrev pub is_in_flight : List FlushBatch → PartitionKey → Bool
is_in_flight [] key = false
is_in_flight (batch ∷ batches) key = key_eq batch.partition key || is_in_flight batches key

pub data Step : IngestState → IngestState → Type 0 where
  accept :
      (s : IngestState) (records : List SpanRecord)
      → Step s (record s {
        buffers = accept_records records s.next s.buffers;
        next = s.next + length (group_records_by_partition records);
      })
  take_batch :
      (s : IngestState) (partition : PartitionKey)
      → next_partition s.buffers ≡ some partition
      → Step s (record s {
        buffers = start_batch partition s.buffers;
        in_flight =
            batch_of partition (buffer_or_default (get_buffer s.buffers partition)) ∷ s.in_flight;
      })
  persisted :
      (s : IngestState) (batch : FlushBatch)
      → Any (λ b. b ≡ batch) s.in_flight
      → Step s (record s {
        buffers = settle_ok batch.partition s.buffers;
        in_flight = remove_batch batch.partition s.in_flight;
        told = batch.waiters ++ s.told;
      })
  not_persisted :
      (s : IngestState) (batch : FlushBatch) (left : List SpanRecord)
      → Any (λ b. b ≡ batch) s.in_flight
      → Step s (record s {
        buffers = settle_err batch left s.buffers;
        in_flight = remove_batch batch.partition s.in_flight;
        told = told_err batch s.buffers ++ s.told;
      })

abbrev pub new_ingestor : IngestState
new_ingestor = record { buffers = []; in_flight = []; told = []; next = 0 }

pub data Reachable : IngestState → Type 0 where
  started : Reachable new_ingestor
  stepped : {s t : IngestState} → Reachable s → Step s t → Reachable t
