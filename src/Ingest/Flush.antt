-- ===== src/Ingest/Flush.antt =====
-- One round of `flush` in src/ingest.rs: a batch is persisted, and its result settled in the buffers.
use kevindb.Base.{◌≡◌, sym, inl, inr, ◌⊎◌, List, ◌++◌, ℕ}
use kevindb.Ingest.{SpanRecord, record_partition_key}
use kevindb.Ingest.Persist.{
  Round, RunEvent, Persisted, finished, failed, running, persist_partition_records,
}
use kevindb.Ingest.Persist.Saved.Loop.{persist_partition_records-SavedIn}
use kevindb.Ingest.Persist.Saved.{Stored, Kept, SavedIn, All-Kept}
use kevindb.Ingest.Persist.Progress.{InPartition, InPartition-InProject}
use kevindb.Ingest.Pending.{FlushBatch, IngestState, settle_ok, settle_err, told_err, remove_batch}
use kevindb.Ingest.Pending.Records.{records_at}
use kevindb.Ingest.Pending.Present.{put_back-settle_err}

-- The `match` on the result of `persist_partition_records`.
abbrev pub settle_flush : FlushBatch → Persisted → IngestState → IngestState
settle_flush batch (finished receipts events) s = record s {
  buffers = settle_ok batch.partition s.buffers;
  in_flight = remove_batch batch.partition s.in_flight;
  told = batch.waiters ++ s.told;
}
settle_flush batch (failed error events) s = record s {
  buffers = settle_err batch error.records s.buffers;
  in_flight = remove_batch batch.partition s.in_flight;
  told = told_err batch s.buffers ++ s.told;
}
settle_flush batch (running records events) s = s

unfoldable pub flush_batch :
    ℕ → List Round → List RunEvent → FlushBatch → IngestState → Persisted × IngestState
flush_batch configured rounds events batch s =
    let result = persist_partition_records configured batch.partition rounds batch.records events in
    (result, settle_flush batch result s)

-- In the table, or back in the buffer of the record's partition.
abbrev pub Durable : SpanRecord → IngestState → Persisted → Type 0
Durable r s (finished receipts events) = Stored events r
Durable r s (failed error events) =
    Stored events r ⊎ Kept (records_at s.buffers (record_partition_key r)) r
Durable r s (running records events) = Stored events r ⊎ Kept records r

settle_flush-Durable :
    (r : SpanRecord) (batch : FlushBatch) (result : Persisted) (s : IngestState)
    → batch.partition ≡ record_partition_key r
    → SavedIn r result
    → Durable r (settle_flush batch result s) result
settle_flush-Durable r batch (finished receipts events) s same saved = saved
settle_flush-Durable r batch (failed error events) s same (inl stored) = inl stored
settle_flush-Durable r batch (failed error events) s same (inr left) =
    inr (put_back-settle_err r batch error.records s.buffers same left)
settle_flush-Durable r batch (running records events) s same saved = saved

-- A flush loses no record of its batch, whose records are of its partition: with a success, each has
-- its event in the table; with an error, each has its event in the table or is in the buffer of
-- its partition again. A flush whose rounds are over before the loop still holds the others.
pub flush_batch-Durable :
    (configured : ℕ) (rounds : List Round) (events : List RunEvent) (batch : FlushBatch)
    (s : IngestState) (r : SpanRecord)
    → InPartition batch.partition batch.records
    → Kept batch.records r
    → Durable r
        (flush_batch configured rounds events batch s).1
        (flush_batch configured rounds events batch s).0
unfolding flush_batch
flush_batch-Durable configured rounds events batch s r p kept =
    settle_flush-Durable r batch
      (persist_partition_records configured batch.partition rounds batch.records events) s
      (sym (All-Kept (λ x. record_partition_key x ≡ batch.partition) batch.records r p kept))
      (persist_partition_records-SavedIn configured batch.partition batch.partition.project_name
        rounds batch.records events r (InPartition-InProject batch.partition batch.records p) kept)
