-- ===== src/Ingest/Partitions/Grouping.antt =====
-- `group_records_by_partition` of src/ingest.rs.
use kevindb.Base.{
  ◌≡◌, refl, ◌∙◌, subst, inl, inr, Bool, true, false, ◌||◌, List, [], ◌∷◌, Bool-cases, or_left,
  or_right,
}
use kevindb.Ingest.{
  SpanRecord, PartitionKey, key_eq, key_leb, record_partition_key, Groups, has_group, push_to_group,
  insert_group, group_record, group_into, group_records_by_partition,
}
use kevindb.Ingest.Partitions.{key_eq→eq, key_eq_refl, group_at, records_of, group_at-group_into}

-- No partition has two entries.
abbrev pub DistinctKeys : Groups → Type 0
DistinctKeys [] = Unit {0}
DistinctKeys ((k, records) ∷ groups) = (has_group groups k ≡ false) × DistinctKeys groups

has_group-push :
    (key q : PartitionKey) (span_record : SpanRecord) (groups : Groups)
    → has_group (push_to_group key span_record groups) q ≡ has_group groups q
has_group-push key q span_record [] = refl
has_group-push key q span_record ((k, records) ∷ groups) = elim (Bool-cases (key_eq k key)) [
  | inl here ↦ rw here refl
  | inr further ↦ rw (further, has_group-push key q span_record groups) refl
]

swap : (a b c : Bool) → (a || (b || c)) ≡ (b || (a || c))
swap true true c = refl
swap true false c = refl
swap false b c = refl

has_group-insert :
    (key q : PartitionKey) (new : List SpanRecord) (groups : Groups)
    → has_group (insert_group key new groups) q ≡ (key_eq key q || has_group groups q)
has_group-insert key q new [] = refl
has_group-insert key q new ((k, records) ∷ groups) = elim (Bool-cases (key_leb key k)) [
  | inl before ↦ rw before refl
  | inr behind ↦
      rw (behind, has_group-insert key q new groups)
        (swap (key_eq k q) (key_eq key q) (has_group groups q))
]

push_to_group-DistinctKeys :
    (key : PartitionKey) (span_record : SpanRecord) (groups : Groups)
    → DistinctKeys groups
    → DistinctKeys (push_to_group key span_record groups)
push_to_group-DistinctKeys key span_record [] d = tt
push_to_group-DistinctKeys key span_record ((k, records) ∷ groups) d =
    elim (Bool-cases (key_eq k key)) [
      | inl here ↦ rw here d
      | inr further ↦ rw further (
        has_group-push key k span_record groups ∙ d.0,
        push_to_group-DistinctKeys key span_record groups d.1,
      )
    ]

key_eq_sym : (a b : PartitionKey) → key_eq a b ≡ false → key_eq b a ≡ false
key_eq_sym a b h = elim (Bool-cases (key_eq b a)) [
  | inr other ↦ other
  | inl same ↦
      let never : key_eq a a ≡ false = subst (λ t. key_eq a t ≡ false) (key_eq→eq b a same) h in
      cc (never, key_eq_refl a)
]

insert_group-DistinctKeys :
    (key : PartitionKey) (new : List SpanRecord) (groups : Groups)
    → has_group groups key ≡ false
    → DistinctKeys groups
    → DistinctKeys (insert_group key new groups)
insert_group-DistinctKeys key new [] h d = (refl, tt)
insert_group-DistinctKeys key new ((k, records) ∷ groups) h d = elim (Bool-cases (key_leb key k)) [
  | inl before ↦ rw before (h, d)
  | inr behind ↦ rw behind (
    has_group-insert key k new groups
        ∙ rw (key_eq_sym k key (or_left (key_eq k key) (has_group groups key) h), d.0) refl,
    insert_group-DistinctKeys key new groups (or_right (key_eq k key) (has_group groups key) h) d.1,
  )
]

group_record-DistinctKeys :
    (span_record : SpanRecord) (groups : Groups)
    → DistinctKeys groups
    → DistinctKeys (group_record span_record groups)
group_record-DistinctKeys span_record groups d =
    let key = record_partition_key span_record in
    elim (Bool-cases (has_group groups key)) [
      | inl old ↦ rw old (push_to_group-DistinctKeys key span_record groups d)
      | inr new ↦ rw new (insert_group-DistinctKeys key (span_record ∷ []) groups new d)
    ]

group_into-DistinctKeys :
    (records : List SpanRecord) (groups : Groups)
    → DistinctKeys groups
    → DistinctKeys (group_into groups records)
group_into-DistinctKeys [] groups d = d
group_into-DistinctKeys (span_record ∷ records) groups d =
    group_into-DistinctKeys records (group_record span_record groups)
      (group_record-DistinctKeys span_record groups d)

-- Grouping sorts the records by partition and does nothing else: no partition has two entries, and
-- the entry of a partition has the records of that partition, all of them and in their order.
pub group_records_by_partition-group_at :
    (records : List SpanRecord)
    → DistinctKeys (group_records_by_partition records)
      × ((key : PartitionKey)
          → group_at (group_records_by_partition records) key ≡ records_of key records)
unfolding group_records_by_partition
group_records_by_partition-group_at records =
    (group_into-DistinctKeys records [] tt, λ key. group_at-group_into key records [])
