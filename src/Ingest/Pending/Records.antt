-- ===== src/Ingest/Pending/Records.antt =====
-- The records that the buffers and the batches of src/ingest.rs hold.
use kevindb.Base.{
  ℕ, ◌+◌, ◌≡◌, refl, sym, ap, ◌∙◌, subst, inl, inr, true, false, ◌&&◌, List, [], ◌∷◌, ◌++◌,
  append-nil, append_assoc, if◌then◌else◌, Bool-cases, Option-cases,
}
use kevindb.Ingest.{SpanRecord, PartitionKey, key_eq, Groups, group_records_by_partition}
use kevindb.Ingest.Partitions.{key_eq→eq, group_at, group_at-missing, records_of}
use kevindb.Ingest.Partitions.Grouping.{DistinctKeys, group_records_by_partition-group_at}
use kevindb.Ingest.Pending.{
  PendingBuffer, Buffers, get_buffer, buffer_or_default, put_buffer, buffer_group, buffer_groups,
  accept_records, none_left, settle_ok,
}
use kevindb.Ingest.Pending.Buffers.{put_buffer-get, remove_buffer-get}

abbrev pub records_at : Buffers → PartitionKey → List SpanRecord
records_at buffers key = (buffer_or_default (get_buffer buffers key)).records

pub put_buffer-records :
    (key q : PartitionKey) (new : PendingBuffer) (buffers : Buffers)
    → records_at (put_buffer key new buffers) q
      ≡ (if key_eq key q then new.records else records_at buffers q)
put_buffer-records key q new buffers =
    ap (λ b. (buffer_or_default b).records) (put_buffer-get key q new buffers)
    ∙ elim (Bool-cases (key_eq key q)) [ inl e ↦ rw e refl | inr e ↦ rw e refl ]

buffer_group-records :
    (partition q : PartitionKey) (records : List SpanRecord) (next : ℕ) (buffers : Buffers)
    → records_at (buffer_group partition records next buffers) q
      ≡ records_at buffers q ++ (if key_eq partition q then records else [])
buffer_group-records partition q records next buffers =
    put_buffer-records partition q _ buffers ∙ elim (Bool-cases (key_eq partition q)) [
      | inl e ↦ rw e (ap (λ k. records_at buffers k ++ records) (key_eq→eq partition q e))
      | inr e ↦ rw e (sym (append-nil (records_at buffers q)))
    ]

buffer_groups-records :
    (groups : Groups) (next : ℕ) (buffers : Buffers) (q : PartitionKey)
    → DistinctKeys groups
    → records_at (buffer_groups groups next buffers) q ≡ records_at buffers q ++ group_at groups q
buffer_groups-records [] next buffers q d = sym (append-nil (records_at buffers q))
buffer_groups-records ((partition, records) ∷ groups) next buffers q d =
    buffer_groups-records groups (next + 1) (buffer_group partition records next buffers) q d.1
    ∙ ap (λ found. found ++ group_at groups q)
        (buffer_group-records partition q records next buffers)
    ∙ append_assoc (records_at buffers q) (if key_eq partition q then records else [])
        (group_at groups q)
    ∙ ap (λ found. records_at buffers q ++ found)
        (elim (Bool-cases (key_eq partition q)) [
          | inl e ↦
              let none_later : group_at groups q ≡ [] =
                subst (λ k. group_at groups k ≡ []) (key_eq→eq partition q e)
                  (group_at-missing partition groups d.0) in
              rw (e, none_later) (append-nil records)
          | inr e ↦ rw e refl
        ])

-- Accepting a batch of records appends to each partition's buffer the batch's records of that
-- partition, in their order, and nothing else.
pub accept_records-records :
    (records : List SpanRecord) (next : ℕ) (buffers : Buffers) (q : PartitionKey)
    → records_at (accept_records records next buffers) q
      ≡ records_at buffers q ++ records_of q records
unfolding accept_records
accept_records-records records next buffers q =
    let (distinct, found) = group_records_by_partition-group_at records in
    buffer_groups-records (group_records_by_partition records) next buffers q distinct
    ∙ ap (λ r. records_at buffers q ++ r) (found q)

pub settle_ok-records :
    (key q : PartitionKey) (buffers : Buffers)
    → records_at (settle_ok key buffers) q ≡ records_at buffers q
unfolding settle_ok
settle_ok-records key q buffers = elim (Option-cases (get_buffer buffers key)) [
  | inl missing ↦ rw missing refl
  | inr (buffer, found) ↦
      let here = ap (λ b. (buffer_or_default b).records) found in
      rw found (elim (Bool-cases (none_left buffer.records && none_left buffer.waiters)) [
        | inl empty ↦ rw empty (
            ap (λ b. (buffer_or_default b).records) (remove_buffer-get key q buffers)
            ∙ elim (Bool-cases (key_eq key q)) [
              | inl e ↦ rw e (
                  sym (
                    ap (records_at buffers) (sym (key_eq→eq key q e))
                    ∙ here
                    ∙ is_nil buffer.records buffer.waiters empty))
              | inr e ↦ rw e refl
            ])
        | inr busy ↦ rw busy (
            put_buffer-records key q (record buffer { flushing = false }) buffers
            ∙ elim (Bool-cases (key_eq key q)) [
              | inl e ↦ rw e (sym here ∙ ap (records_at buffers) (key_eq→eq key q e))
              | inr e ↦ rw e refl
            ])
      ])
]
  where
    is_nil :
        (records : List SpanRecord) (waiters : List ℕ)
        → (none_left records && none_left waiters) ≡ true
        → records ≡ []
    is_nil [] waiters h = refl
    is_nil (x ∷ records) waiters h = cc
