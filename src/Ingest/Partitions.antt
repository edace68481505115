-- ===== src/Ingest/Partitions.antt =====
-- The partitions of records in src/ingest.rs.
pub mod Grouping
pub mod Bounds
use kevindb.Base.{
  ℕ, zero, suc, ◌+◌, ◌-◌, ◌*◌, ◌/◌, ◌^◌, ◌≤◌, ◌<◌, min, ◌≡◌, refl, sym, ap, ◌∙◌, subst, arith, inl,
  inr, Bool, true, false, ◌&&◌, ◌||◌, List, [], ◌∷◌, ◌++◌, append-nil, append_assoc, if◌then◌else◌,
  All, All-append, All-imp, Bool-cases, and_left, and_right, or_left, or_right, ltb,
}
use kevindb.Base.Text.{Text, text_eq, text_eq→eq, text_eq_refl}
use kevindb.Base.Int.{
  ℤ, pos, negsuc, int_eq→eq, int_eq_refl, int_eq, Int64, from_least, div_euclid, saturating_mul,
}
use kevindb.Ingest.{
  SpanRecord, PartitionKey, key_eq, key_leb, record_partition_key, ingest_time_bucket_unix_nanos,
  Groups, has_group, push_to_group, insert_group, group_record, group_into,
  group_records_by_partition,
}

pub key_eq→eq : (a b : PartitionKey) → key_eq a b ≡ true → a ≡ b
key_eq→eq a b h =
    let p = text_eq→eq a.project_name b.project_name (and_left _ _ h) in
    let t =
      int_eq→eq a.time_bucket_start_unix_nano b.time_bucket_start_unix_nano (and_right _ _ h) in
    λ i. record { project_name = p i; time_bucket_start_unix_nano = t i }

pub key_eq_refl : (a : PartitionKey) → key_eq a a ≡ true
key_eq_refl a = rw (text_eq_refl a.project_name, int_eq_refl a.time_bucket_start_unix_nano) refl

pub key_eq-different :
    (a b q : PartitionKey) → key_eq a q ≡ true → key_eq b a ≡ false → key_eq b q ≡ false
key_eq-different a b q h d = subst (λ k. key_eq b k ≡ false) (key_eq→eq a q h) d

-- `get(key)`, with no records for a partition that has no entry
abbrev pub group_at : Groups → PartitionKey → List SpanRecord
group_at [] key = []
group_at ((k, records) ∷ groups) key =
    let rest = group_at groups key in if key_eq k key then records else rest

-- The record alone if it is in the partition.
abbrev pub own : PartitionKey → SpanRecord → List SpanRecord
own key span_record = if key_eq (record_partition_key span_record) key then span_record ∷ [] else []

-- The records of a partition, in their order.
abbrev pub records_of : PartitionKey → List SpanRecord → List SpanRecord
records_of key [] = []
records_of key (span_record ∷ records) = own key span_record ++ records_of key records

push_to_group-other :
    (key q : PartitionKey) (span_record : SpanRecord) (groups : Groups)
    → key_eq key q ≡ false
    → group_at (push_to_group key span_record groups) q ≡ group_at groups q
push_to_group-other key q span_record [] d = refl
push_to_group-other key q span_record ((k, records) ∷ groups) d = elim (Bool-cases (key_eq k key)) [
  | inl here ↦
      let not_here : key_eq k q ≡ false =
        subst (λ a. key_eq a q ≡ false) (sym (key_eq→eq k key here)) d in
      rw (here, not_here) refl
  | inr further ↦ rw (further, push_to_group-other key q span_record groups d) refl
]

push_to_group-same :
    (key : PartitionKey) (span_record : SpanRecord) (groups : Groups)
    → has_group groups key ≡ true
    → group_at (push_to_group key span_record groups) key
      ≡ group_at groups key ++ (span_record ∷ [])
push_to_group-same key span_record [] h = cc
push_to_group-same key span_record ((k, records) ∷ groups) h = elim (Bool-cases (key_eq k key)) [
  | inl here ↦ rw (here, here) refl
  | inr further ↦
      rw (further, further) (push_to_group-same key span_record groups (rw further at h))
]

insert_group-find :
    (key q : PartitionKey) (new : List SpanRecord) (groups : Groups)
    → has_group groups key ≡ false
    → group_at (insert_group key new groups) q ≡ (if key_eq key q then new else group_at groups q)
insert_group-find key q new [] h = refl
insert_group-find key q new ((k, records) ∷ groups) h = elim (Bool-cases (key_leb key k)) [
  | inl before ↦ rw before refl
  | inr behind ↦
      rw
        (
          behind,
          insert_group-find key q new groups (or_right (key_eq k key) (has_group groups key) h),
        )
        (elim (Bool-cases (key_eq key q)) [
          | inl same ↦
              let other : key_eq k q ≡ false =
                key_eq-different key k q same (or_left (key_eq k key) (has_group groups key) h) in
              rw (same, other) refl
          | inr other ↦ rw other refl
        ])
]

pub group_at-missing :
    (key : PartitionKey) (groups : Groups) → has_group groups key ≡ false → group_at groups key ≡ []
group_at-missing key [] h = refl
group_at-missing key ((k, records) ∷ groups) h =
    rw (or_left (key_eq k key) (has_group groups key) h)
      (group_at-missing key groups (or_right (key_eq k key) (has_group groups key) h))

group_at-group_record :
    (q : PartitionKey) (span_record : SpanRecord) (groups : Groups)
    → group_at (group_record span_record groups) q ≡ group_at groups q ++ own q span_record
group_at-group_record q span_record groups =
    let key = record_partition_key span_record in
    elim (Bool-cases (has_group groups key)) [
      | inl old ↦ rw old (elim (Bool-cases (key_eq key q)) [
        | inl same ↦ rw same (
            subst
              (λ k.
                group_at (push_to_group key span_record groups) k
                ≡ group_at groups k ++ (span_record ∷ []))
              (key_eq→eq key q same) (push_to_group-same key span_record groups old))
        | inr other ↦ rw other (
            push_to_group-other key q span_record groups other
            ∙ sym (append-nil (group_at groups q)))
      ])
      | inr new ↦
          rw (new, insert_group-find key q (span_record ∷ []) groups new)
            (elim (Bool-cases (key_eq key q)) [
              | inl same ↦
                  let missing : group_at groups q ≡ [] =
                    subst (λ k. group_at groups k ≡ []) (key_eq→eq key q same)
                      (group_at-missing key groups new) in
                  rw (same, missing) refl
              | inr other ↦ rw other (sym (append-nil (group_at groups q)))
            ])
    ]

pub group_at-group_into :
    (q : PartitionKey) (records : List SpanRecord) (groups : Groups)
    → group_at (group_into groups records) q ≡ group_at groups q ++ records_of q records
group_at-group_into q [] groups = sym (append-nil (group_at groups q))
group_at-group_into q (span_record ∷ records) groups =
    group_at-group_into q records (group_record span_record groups)
    ∙ ap (λ found. found ++ records_of q records) (group_at-group_record q span_record groups)
    ∙ append_assoc (group_at groups q) (own q span_record) (records_of q records)
