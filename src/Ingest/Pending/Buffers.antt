-- ===== src/Ingest/Pending/Buffers.antt =====
-- The map of the pending buffers, by its lookups.
use kevindb.Base.{
  ◌≡◌, refl, sym, ap, subst, inl, inr, true, false, none, some, [], ◌∷◌, if◌then◌else◌, Bool-cases,
  or_left, or_right,
}
use kevindb.Ingest.{PartitionKey, key_eq, key_leb}
use kevindb.Ingest.Partitions.{key_eq→eq, key_eq-different}
use kevindb.Ingest.Pending.{
  PendingBuffer, Buffers, get_buffer, has_buffer, replace_buffer, insert_buffer, put_buffer,
  remove_buffer, due, find_due,
}

replace_buffer-get :
    (key q : PartitionKey) (new : PendingBuffer) (buffers : Buffers)
    → has_buffer buffers key ≡ true
    → get_buffer (replace_buffer key new buffers) q
      ≡ (if key_eq key q then some new else get_buffer buffers q)
replace_buffer-get key q new [] h = cc
replace_buffer-get key q new ((k, buffer) ∷ buffers) h = elim (Bool-cases (key_eq k key)) [
  | inl here ↦
      let same : k ≡ key = key_eq→eq k key here in
      rw (here, ap (λ a. key_eq a q) same)
        (elim (Bool-cases (key_eq key q)) [ inl e ↦ rw e refl | inr e ↦ rw e refl ])
  | inr further ↦
      rw (further, replace_buffer-get key q new buffers (rw further at h))
        (elim (Bool-cases (key_eq key q)) [
          | inl e ↦ rw (e, key_eq-different key k q e further) refl
          | inr e ↦ rw e refl
        ])
]

insert_buffer-get :
    (key q : PartitionKey) (new : PendingBuffer) (buffers : Buffers)
    → has_buffer buffers key ≡ false
    → get_buffer (insert_buffer key new buffers) q
      ≡ (if key_eq key q then some new else get_buffer buffers q)
insert_buffer-get key q new [] h = refl
insert_buffer-get key q new ((k, buffer) ∷ buffers) h = elim (Bool-cases (key_leb key k)) [
  | inl before ↦ rw before refl
  | inr behind ↦
      rw
        (
          behind,
          insert_buffer-get key q new buffers (or_right (key_eq k key) (has_buffer buffers key) h),
        )
        (elim (Bool-cases (key_eq key q)) [
          | inl e ↦
              rw (e, key_eq-different key k q e (or_left (key_eq k key) (has_buffer buffers key) h))
                refl
          | inr e ↦ rw e refl
        ])
]

pub put_buffer-get :
    (key q : PartitionKey) (new : PendingBuffer) (buffers : Buffers)
    → get_buffer (put_buffer key new buffers) q
      ≡ (if key_eq key q then some new else get_buffer buffers q)
put_buffer-get key q new buffers = elim (Bool-cases (has_buffer buffers key)) [
  | inl old ↦ rw old (replace_buffer-get key q new buffers old)
  | inr fresh ↦ rw fresh (insert_buffer-get key q new buffers fresh)
]

pub remove_buffer-get :
    (key q : PartitionKey) (buffers : Buffers)
    → get_buffer (remove_buffer key buffers) q
      ≡ (if key_eq key q then none else get_buffer buffers q)
remove_buffer-get key q [] = elim (Bool-cases (key_eq key q)) [
  | inl e ↦ rw e refl
  | inr e ↦ rw e refl
]
remove_buffer-get key q ((k, buffer) ∷ buffers) = elim (Bool-cases (key_eq k key)) [
  | inl here ↦
      rw (here, remove_buffer-get key q buffers)
        (elim (Bool-cases (key_eq key q)) [
          | inl e ↦ rw e refl
          | inr e ↦ rw (e, subst (λ a. key_eq a q ≡ false) (sym (key_eq→eq k key here)) e) refl
        ])
  | inr further ↦
      rw (further, remove_buffer-get key q buffers)
        (elim (Bool-cases (key_eq key q)) [
          | inl e ↦ rw (e, key_eq-different key k q e further) refl
          | inr e ↦ rw e refl
        ])
]

pub find_due-due :
    (buffers entries : Buffers) (partition : PartitionKey)
    → find_due buffers entries ≡ some partition
    → due (get_buffer buffers partition) ≡ true
find_due-due buffers [] partition e = cc
find_due-due buffers ((k, buffer) ∷ entries) partition e =
    elim (Bool-cases (due (get_buffer buffers k))) [
      | inl yes_due ↦
          subst (λ p. due (get_buffer buffers p) ≡ true) (some_inj (rw yes_due at e)) yes_due
      | inr not_due ↦ find_due-due buffers entries partition (rw not_due at e)
    ]
  where
    some_inj : {a b : PartitionKey} → some a ≡ some b → a ≡ b
    some_inj e = cc
