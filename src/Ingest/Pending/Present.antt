-- ===== src/Ingest/Pending/Present.antt =====
-- A record on its way through the buffers and the batches of src/ingest.rs.
use kevindb.Base.{
  ◌≡◌, refl, sym, ap, ◌∙◌, subst, inl, inr, ◌⊎◌, Bool, true, false, List, [], ◌∷◌, ◌++◌,
  if◌then◌else◌, Bool-cases, Any, Any-append_left, Any-append_right,
}
use kevindb.Ingest.{SpanRecord, PartitionKey, key_eq, record_partition_key}
use kevindb.Ingest.Partitions.{key_eq→eq, key_eq_refl, records_of}
use kevindb.Ingest.Persist.Saved.{Kept}
use kevindb.Ingest.Pending.{
  FlushBatch, Buffers, get_buffer, buffer_or_default, batch_of, emptied, start_batch, settle_err,
  IngestState, remove_batch, is_in_flight, Step, accept, take_batch, persisted, not_persisted,
}
use kevindb.Ingest.Pending.Writers.{DistinctBatches, OneWriter, in_flight-known}
use kevindb.Ingest.Pending.Records.{
  records_at, put_buffer-records, accept_records-records, settle_ok-records,
}

module _ (r : SpanRecord) where
  abbrev InBatch : FlushBatch → Type 0
  InBatch batch = (batch.partition ≡ record_partition_key r) × Kept batch.records r

  -- In the buffer of its partition, or in a batch of it that is in flight.
  abbrev pub Present : IngestState → Type 0
  Present s = Kept (records_at s.buffers (record_partition_key r)) r ⊎ Any InBatch s.in_flight

  -- The batch that the step ends holds the record.
  abbrev pub Settles : {s t : IngestState} → Step s t → Type 0
  Settles (accept s records) = ⊥
  Settles (take_batch s partition found) = ⊥
  Settles (persisted s batch member) = Kept batch.records r
  Settles (not_persisted s batch left member) = Kept batch.records r

  -- The step has the record put back into its partition's buffer, or brings it for the first time.
  abbrev pub Brings : {s t : IngestState} → Step s t → Type 0
  Brings (accept s records) = Kept (records_of (record_partition_key r) records) r
  Brings (take_batch s partition found) = ⊥
  Brings (persisted s batch member) = ⊥
  Brings (not_persisted s batch left member) =
      (batch.partition ≡ record_partition_key r) × Kept left r

  remove_batch-InBatch :
      (batch : FlushBatch) (batches : List FlushBatch)
      → DistinctBatches batches
      → Any (λ b. b ≡ batch) batches
      → Any InBatch batches
      → Any InBatch (remove_batch batch.partition batches) ⊎ Kept batch.records r
  remove_batch-InBatch batch [] d m h = absurd h
  remove_batch-InBatch batch (first ∷ batches) d m h =
      elim (Bool-cases (key_eq first.partition batch.partition)) [
        | inl here ↦ rw here (elim h [
          | inr later ↦ inl later
          | inl found ↦ inr (subst (λ b. Kept b.records r) (is_first m here) found.1)
        ])
        | inr other ↦ rw other (elim h [
          | inl found ↦ inl (inl found)
          | inr later ↦ elim (remove_batch-InBatch batch batches d.1 (is_later m other) later) [
            | inl kept ↦ inl (inr kept)
            | inr settled ↦ inr settled
          ]
        ])
      ]
    where
      clash : {b : Bool} → b ≡ true → b ≡ false → ⊥
      clash e f = cc

      is_first :
          Any (λ b. b ≡ batch) (first ∷ batches)
          → key_eq first.partition batch.partition ≡ true
          → first ≡ batch
      is_first (inl e) here = e
      is_first (inr later) here = absurd (
          clash
            (ap (is_in_flight batches) (key_eq→eq first.partition batch.partition here)
              ∙ in_flight-known batch batches later)
            d.0)

      is_later :
          Any (λ b. b ≡ batch) (first ∷ batches)
          → key_eq first.partition batch.partition ≡ false
          → Any (λ b. b ≡ batch) batches
      is_later (inr later) other = later
      is_later (inl e) other = absurd (
          clash (ap (λ b. key_eq b.partition batch.partition) e ∙ key_eq_refl batch.partition)
            other)

  buffered-start_batch :
      (s : IngestState) (partition : PartitionKey)
      → Kept (records_at s.buffers (record_partition_key r)) r
      → Kept (records_at (start_batch partition s.buffers) (record_partition_key r)) r
        ⊎ InBatch (batch_of partition (buffer_or_default (get_buffer s.buffers partition)))
  buffered-start_batch s partition kept =
      let q = record_partition_key r in
      let after =
        put_buffer-records partition q
          (emptied (buffer_or_default (get_buffer s.buffers partition))) s.buffers in
      elim (Bool-cases (key_eq partition q)) [
        | inl e ↦
            let same : partition ≡ q = key_eq→eq partition q e in
            inr (same, subst (λ k. Kept (records_at s.buffers k) r) (sym same) kept)
        | inr e ↦
            let unchanged : records_at (start_batch partition s.buffers) q
                ≡ records_at s.buffers q =
              after ∙ rw e refl in
            inl (subst (λ records. Kept records r) (sym unchanged) kept)
      ]

  settle_err-records :
      (batch : FlushBatch) (left : List SpanRecord) (buffers : Buffers)
      → records_at (settle_err batch left buffers) (record_partition_key r) ≡ (
          if key_eq batch.partition (record_partition_key r)
          then left ++ records_at buffers (record_partition_key r)
          else records_at buffers (record_partition_key r))
  unfolding settle_err
  settle_err-records batch left buffers =
      let q = record_partition_key r in
      put_buffer-records batch.partition q _ buffers
      ∙ elim (Bool-cases (key_eq batch.partition q)) [
        | inl e ↦ rw e (ap (λ k. left ++ records_at buffers k) (key_eq→eq batch.partition q e))
        | inr e ↦ rw e refl
      ]

  buffered-settle_err :
      (batch : FlushBatch) (left : List SpanRecord) (buffers : Buffers)
      → Kept (records_at buffers (record_partition_key r)) r
      → Kept (records_at (settle_err batch left buffers) (record_partition_key r)) r
  buffered-settle_err batch left buffers kept =
      let q = record_partition_key r in
      subst (λ records. Kept records r) (sym (settle_err-records batch left buffers))
        (elim (Bool-cases (key_eq batch.partition q)) [
          | inl e ↦ rw e (Any-append_right (λ x. x ≡ r) left (records_at buffers q) kept)
          | inr e ↦ rw e kept
        ])

  pub put_back-settle_err :
      (batch : FlushBatch) (left : List SpanRecord) (buffers : Buffers)
      → batch.partition ≡ record_partition_key r
      → Kept left r
      → Kept (records_at (settle_err batch left buffers) (record_partition_key r)) r
  put_back-settle_err batch left buffers same kept =
      let q = record_partition_key r in
      let e : key_eq batch.partition q ≡ true = ap (λ k. key_eq k q) same ∙ key_eq_refl q in
      subst (λ records. Kept records r) (sym (settle_err-records batch left buffers))
        (rw e (Any-append_left (λ x. x ≡ r) left (records_at buffers q) kept))

  -- In every step of a state with one writer for a partition, a record that is in its partition's
  -- buffer or in a batch in flight stays in one of these, unless the step ends the batch that holds
  -- it; and a record that the step brings, or puts back after an error, is then in its
  -- partition's buffer or in flight.
  pub step-Present :
      {s t : IngestState}
      → OneWriter s
      → (step : Step s t) → (Present s → Present t ⊎ Settles step) × (Brings step → Present t)
  step-Present one (accept s records) =
      let q = record_partition_key r in
      let after = accept_records-records records s.next s.buffers q in
      (
        λ present. inl (elim present [
          | inl kept ↦ inl (
              subst (λ records. Kept records r) (sym after)
                (Any-append_left (λ x. x ≡ r) (records_at s.buffers q) (records_of q records) kept))
          | inr flying ↦ inr flying
        ]),
        λ brought. inl (
            subst (λ records. Kept records r) (sym after)
              (Any-append_right (λ x. x ≡ r) (records_at s.buffers q) (records_of q records)
                brought)),
      )
  step-Present one (take_batch s partition found) = (
    λ present. inl (elim present [
      | inr flying ↦ inr (inr flying)
      | inl kept ↦ elim (buffered-start_batch s partition kept) [
        | inl still ↦ inl still
        | inr taken ↦ inr (inl taken)
      ]
    ]),
    λ brought. absurd brought,
  )
  step-Present one (persisted s batch member) = (
    λ present. elim present [
      | inl kept ↦ inl (
          inl (
            subst (λ records. Kept records r)
              (sym (settle_ok-records batch.partition (record_partition_key r) s.buffers)) kept))
      | inr flying ↦ elim (remove_batch-InBatch batch s.in_flight one.distinct member flying) [
        | inl still ↦ inl (inr still)
        | inr settled ↦ inr settled
      ]
    ],
    λ brought. absurd brought,
  )
  step-Present one (not_persisted s batch left member) = (
    λ present. elim present [
      | inl kept ↦ inl (inl (buffered-settle_err batch left s.buffers kept))
      | inr flying ↦ elim (remove_batch-InBatch batch s.in_flight one.distinct member flying) [
        | inl still ↦ inl (inr still)
        | inr settled ↦ inr settled
      ]
    ],
    λ brought. inl (put_back-settle_err batch left s.buffers brought.0 brought.1),
  )
