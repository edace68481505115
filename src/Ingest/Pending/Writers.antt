-- ===== src/Ingest/Pending/Writers.antt =====
-- Who writes a partition in src/ingest.rs: the flag `flushing` and the batches in flight.
use kevindb.Base.{
  ℕ, ◌+◌, ◌≡◌, refl, sym, ap, ◌∙◌, inl, inr, Bool, true, false, ◌&&◌, ◌||◌, not, Option, none, some,
  List, [], ◌∷◌, if◌then◌else◌, Bool-cases, Option-cases, and_left, is_false, Any,
}
use kevindb.Ingest.{PartitionKey, key_eq, Groups, group_records_by_partition}
use kevindb.Ingest.Partitions.{key_eq-different, key_eq→eq, key_eq_refl}
use kevindb.Ingest.Pending.{
  PendingBuffer, FlushBatch, Buffers, get_buffer, buffer_or_default, put_buffer, buffer_group,
  buffer_groups, accept_records, due, none_left, settle_ok, settle_err, IngestState, remove_batch,
  is_in_flight, Step, accept, take_batch, persisted, not_persisted, Reachable, started, stepped,
}
use kevindb.Ingest.Pending.Buffers.{put_buffer-get, remove_buffer-get, find_due-due}

abbrev pub flushing_of : Buffers → PartitionKey → Bool
flushing_of buffers key = (buffer_or_default (get_buffer buffers key)).flushing

abbrev pub DistinctBatches : List FlushBatch → Type 0
DistinctBatches [] = Unit {0}
DistinctBatches (batch ∷ batches) =
    (is_in_flight batches batch.partition ≡ false) × DistinctBatches batches

-- The flag of a partition is up exactly while a batch of it is in flight, and there is one at most.
pub record OneWriter (s : IngestState) : Type 0 where
  pub flagged : (q : PartitionKey) → flushing_of s.buffers q ≡ is_in_flight s.in_flight q
  pub distinct : DistinctBatches s.in_flight

put_buffer-flushing :
    (key q : PartitionKey) (new : PendingBuffer) (buffers : Buffers)
    → flushing_of (put_buffer key new buffers) q
      ≡ (if key_eq key q then new.flushing else flushing_of buffers q)
put_buffer-flushing key q new buffers =
    ap (λ b. (buffer_or_default b).flushing) (put_buffer-get key q new buffers)
    ∙ elim (Bool-cases (key_eq key q)) [ inl e ↦ rw e refl | inr e ↦ rw e refl ]

-- The flag stays when a buffer is put back with its own.
put_buffer-flushing_same :
    (key q : PartitionKey) (new : PendingBuffer) (buffers : Buffers)
    → new.flushing ≡ flushing_of buffers key
    → flushing_of (put_buffer key new buffers) q ≡ flushing_of buffers q
put_buffer-flushing_same key q new buffers same =
    put_buffer-flushing key q new buffers ∙ elim (Bool-cases (key_eq key q)) [
      | inl e ↦ rw e (same ∙ ap (flushing_of buffers) (key_eq→eq key q e))
      | inr e ↦ rw e refl
    ]

buffer_groups-flushing :
    (groups : Groups) (next : ℕ) (buffers : Buffers) (q : PartitionKey)
    → flushing_of (buffer_groups groups next buffers) q ≡ flushing_of buffers q
buffer_groups-flushing [] next buffers q = refl
buffer_groups-flushing ((partition, records) ∷ groups) next buffers q =
    buffer_groups-flushing groups (next + 1) (buffer_group partition records next buffers) q
    ∙ put_buffer-flushing_same partition q _ buffers refl

is_in_flight-remove :
    (key q : PartitionKey) (batches : List FlushBatch)
    → DistinctBatches batches
    → is_in_flight batches key ≡ true
    → is_in_flight (remove_batch key batches) q
      ≡ (if key_eq key q then false else is_in_flight batches q)
is_in_flight-remove key q [] d h = cc
is_in_flight-remove key q (batch ∷ batches) d h = elim (Bool-cases (key_eq batch.partition key)) [
  | inl here ↦
      let same : batch.partition ≡ key = key_eq→eq batch.partition key here in
      rw (here, ap (λ a. key_eq a q) same)
        (elim (Bool-cases (key_eq key q)) [
          | inl e ↦ rw e (ap (is_in_flight batches) (sym (key_eq→eq key q e) ∙ sym same) ∙ d.0)
          | inr e ↦ rw e refl
        ])
  | inr further ↦
      rw (further, is_in_flight-remove key q batches d.1 (rw further at h))
        (elim (Bool-cases (key_eq key q)) [
          | inl e ↦ rw (e, key_eq-different key batch.partition q e further) refl
          | inr e ↦ rw e refl
        ])
]

remove_batch-DistinctBatches :
    (key : PartitionKey) (batches : List FlushBatch)
    → DistinctBatches batches
    → is_in_flight batches key ≡ true
    → DistinctBatches (remove_batch key batches)
remove_batch-DistinctBatches key [] d h = tt
remove_batch-DistinctBatches key (batch ∷ batches) d h =
    elim (Bool-cases (key_eq batch.partition key)) [
      | inl here ↦ rw here d.1
      | inr further ↦
          let later : is_in_flight batches key ≡ true = rw further at h in
          rw further (
            is_in_flight-remove key batch.partition batches d.1 later ∙ rw d.0 (both_false _),
            remove_batch-DistinctBatches key batches d.1 later,
          )
    ]
  where
    both_false : (b : Bool) → (if b then false else false) ≡ false
    both_false true = refl
    both_false false = refl

pub in_flight-known :
    (batch : FlushBatch) (batches : List FlushBatch)
    → Any (λ b. b ≡ batch) batches
    → is_in_flight batches batch.partition ≡ true
in_flight-known batch [] h = absurd h
in_flight-known batch (b ∷ batches) (inl e) =
    rw (ap (λ x. key_eq x.partition batch.partition) e, key_eq_refl batch.partition) refl
in_flight-known batch (b ∷ batches) (inr h) =
    or_true (key_eq b.partition batch.partition) _ (in_flight-known batch batches h)
  where
    or_true : (a b : Bool) → b ≡ true → (a || b) ≡ true
    or_true true b h = refl
    or_true false b h = h

settle_ok-flushing :
    (key q : PartitionKey) (buffers : Buffers)
    → flushing_of (settle_ok key buffers) q
      ≡ (if key_eq key q then false else flushing_of buffers q)
unfolding settle_ok
settle_ok-flushing key q buffers = elim (Option-cases (get_buffer buffers key)) [
  | inl missing ↦ rw missing (elim (Bool-cases (key_eq key q)) [
    | inl e ↦ rw e (
        ap (λ k. flushing_of buffers k) (sym (key_eq→eq key q e))
        ∙ ap (λ b. (buffer_or_default b).flushing) missing)
    | inr e ↦ rw e refl
  ])
  | inr (buffer, found) ↦
      rw found (elim (Bool-cases (none_left buffer.records && none_left buffer.waiters)) [
        | inl empty ↦ rw empty (
            ap (λ b. (buffer_or_default b).flushing) (remove_buffer-get key q buffers)
            ∙ elim (Bool-cases (key_eq key q)) [ inl e ↦ rw e refl | inr e ↦ rw e refl ])
        | inr busy ↦
            rw busy (put_buffer-flushing key q (record buffer { flushing = false }) buffers)
      ])
]

-- A batch leaves, and its partition's flag goes down.
settled-OneWriter :
    (s : IngestState) (batch : FlushBatch) (buffers : Buffers) (told : List ℕ)
    → Any (λ b. b ≡ batch) s.in_flight
    → ((q : PartitionKey)
        → flushing_of buffers q
          ≡ (if key_eq batch.partition q then false else flushing_of s.buffers q))
    → OneWriter s
    → OneWriter (record s {
      buffers = buffers;
      in_flight = remove_batch batch.partition s.in_flight;
      told = told;
    })
settled-OneWriter s batch buffers told member down one =
    let known = in_flight-known batch s.in_flight member in
    record {
      flagged = λ q.
          down q
          ∙ ap (λ b. if key_eq batch.partition q then false else b) (one.flagged q)
          ∙ sym (is_in_flight-remove batch.partition q s.in_flight one.distinct known);
      distinct = remove_batch-DistinctBatches batch.partition s.in_flight one.distinct known;
    }

due-not_flushing :
    (b : Option PendingBuffer) → due b ≡ true → (buffer_or_default b).flushing ≡ false
due-not_flushing none h = refl
due-not_flushing (some buffer) h =
    is_false buffer.flushing (and_left (not buffer.flushing) (not (none_left buffer.records)) h)

pub step-OneWriter : {s t : IngestState} → Step s t → OneWriter s → OneWriter t
unfolding accept_records settle_err
step-OneWriter (accept s records) one = record {
  flagged = λ q.
      buffer_groups-flushing (group_records_by_partition records) s.next s.buffers q
      ∙ one.flagged q;
  distinct = one.distinct;
}
step-OneWriter (take_batch s partition found) one =
    let idle =
      due-not_flushing (get_buffer s.buffers partition)
        (find_due-due s.buffers s.buffers partition found) in
    record {
      flagged = λ q.
          put_buffer-flushing partition q _ s.buffers
          ∙ rw (one.flagged q) (joined (key_eq partition q) (is_in_flight s.in_flight q));
      distinct = (sym (one.flagged partition) ∙ idle, one.distinct);
    }
  where
    joined : (a b : Bool) → (if a then true else b) ≡ (a || b)
    joined true b = refl
    joined false b = refl
step-OneWriter (persisted s batch member) one =
    settled-OneWriter s batch _ _ member (λ q. settle_ok-flushing batch.partition q s.buffers) one
step-OneWriter (not_persisted s batch left member) one =
    settled-OneWriter s batch _ _ member (λ q. put_buffer-flushing batch.partition q _ s.buffers)
      one

-- In every state that the calls of an ingestor reach, however their steps interleave, no partition
-- has two batches in flight, and a partition's flag `flushing` is up exactly while a batch of it
-- is in flight.
pub Reachable-OneWriter : {s : IngestState} → Reachable s → OneWriter s
Reachable-OneWriter started = record { flagged = λ q. refl; distinct = tt }
Reachable-OneWriter (stepped reached step) = step-OneWriter step (Reachable-OneWriter reached)
