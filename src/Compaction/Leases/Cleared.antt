-- ===== src/Compaction/Leases/Cleared.antt =====
-- What the statements leave of one holder's rows for one project.
use kevindb.Base.{
  ℕ, ◌≡◌, arith, inl, inr, ◌⊎◌, Bool, true, false, [], ◌∷◌, All, Bool-cases, Option-cases,
}
use kevindb.Base.Text.{Text, text_eq, text_eq→eq}
use kevindb.Compaction.Leases.{
  Lease, LeaseTable, delete_where, find_lease, clearable, held_by, insert_or_nothing,
  try_acquire_compaction_lease, release_compaction_lease,
}

-- No row for the project names the holder.
abbrev pub NoLease : Text → Text → LeaseTable → Type 0
NoLease holder project table =
    All (λ row. text_eq row.project_name project ≡ true → text_eq row.holder_id holder ≡ false)
      table

NoLease-delete_where :
    (h q : Text) (test : Lease → Bool) (table : LeaseTable)
    → NoLease h q table
    → NoLease h q (delete_where test table)
unfolding delete_where
NoLease-delete_where h q test [] k = tt
NoLease-delete_where h q test (row ∷ table) k = elim (Bool-cases (test row)) [
  | inl gone ↦ rw gone (NoLease-delete_where h q test table k.1)
  | inr stays ↦ rw stays (k.0, NoLease-delete_where h q test table k.1)
]

-- A DELETE that matches every row of the holder for the project leaves none.
delete_where-NoLease :
    (h q : Text) (test : Lease → Bool) (table : LeaseTable)
    → ((row : Lease)
        → text_eq row.project_name q ≡ true
        → text_eq row.holder_id h ≡ true
        → test row ≡ true)
    → NoLease h q (delete_where test table)
unfolding delete_where
delete_where-NoLease h q test [] k = tt
delete_where-NoLease h q test (row ∷ table) k = elim (Bool-cases (test row)) [
  | inl gone ↦ rw gone (delete_where-NoLease h q test table k)
  | inr stays ↦ rw stays (
    λ here. elim (Bool-cases (text_eq row.holder_id h)) [
      | inl own ↦ absurd (clash (k row here own) stays)
      | inr theirs ↦ theirs
    ],
    delete_where-NoLease h q test table k,
  )
]
  where
    clash : {b : Bool} → b ≡ true → b ≡ false → ⊥
    clash e f = cc

matches_clearable :
    (q h : Text) (now : ℕ) (row : Lease)
    → text_eq row.project_name q ≡ true
    → text_eq row.holder_id h ≡ true
    → clearable q h now row ≡ true
matches_clearable q h now row p k = ground arith

matches_held_by :
    (q h : Text) (row : Lease)
    → text_eq row.project_name q ≡ true
    → text_eq row.holder_id h ≡ true
    → held_by q h row ≡ true
matches_held_by q h row p k = ground arith

-- An acquisition puts in no row but that of its project.
pub acquire-NoLease :
    (h q p : Text) (expires_at now : ℕ) (table : LeaseTable)
    → text_eq p q ≡ false
    → NoLease h q table
    → NoLease h q (try_acquire_compaction_lease p h expires_at now table).0
unfolding try_acquire_compaction_lease insert_or_nothing
acquire-NoLease h q p expires_at now table other k =
    let kept = NoLease-delete_where h q (clearable p h now) table k in
    elim (Option-cases (find_lease p (delete_where (clearable p h now) table))) [
      | inl free ↦ rw free (λ same. absurd (clash same other), kept)
      | inr (r, taken) ↦ rw taken kept
    ]
  where
    clash : {b : Bool} → b ≡ true → b ≡ false → ⊥
    clash e f = cc

-- A refused acquisition has cleared the holder's own rows.
pub refused-NoLease :
    (h p : Text) (expires_at now : ℕ) (table : LeaseTable)
    → (try_acquire_compaction_lease p h expires_at now table).1 ≡ false
    → NoLease h p (try_acquire_compaction_lease p h expires_at now table).0
unfolding try_acquire_compaction_lease insert_or_nothing
refused-NoLease h p expires_at now table no_lease =
    let cleared = delete_where-NoLease h p (clearable p h now) table (matches_clearable p h now) in
    elim (Option-cases (find_lease p (delete_where (clearable p h now) table))) [
      | inl free ↦ absurd (clash (rw free at no_lease))
      | inr (r, taken) ↦ rw taken cleared
    ]
  where
    clash : ◌≡◌ {A = Bool} true false → ⊥
    clash e = cc

pub release-NoLease :
    (h q p : Text) (table : LeaseTable)
    → ((text_eq p q ≡ true) ⊎ NoLease h q table)
    → NoLease h q (release_compaction_lease p h table)
unfolding release_compaction_lease
release-NoLease h q p table (inl same) =
    let e : p ≡ q = text_eq→eq p q same in
    rw e (delete_where-NoLease h q (held_by q h) table (matches_held_by q h))
release-NoLease h q p table (inr k) = NoLease-delete_where h q (held_by p h) table k
