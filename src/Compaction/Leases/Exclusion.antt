-- ===== src/Compaction/Leases/Exclusion.antt =====
-- A lease and the operations of other holders, in any order.
use kevindb.Base.{
  ℕ, ◌<◌, ◌≡◌, refl, ap, arith, inl, inr, Bool, true, false, Option, none, some, List, [], ◌∷◌, leb,
  All, lt→leb, Bool-cases, Option-cases,
}
use kevindb.Base.Text.{Text, text_eq, text_eq→eq}
use kevindb.Compaction.Leases.{
  Lease, LeaseTable, delete_where, find_lease, clearable, held_by, insert_or_nothing,
  try_acquire_compaction_lease, release_compaction_lease,
}

-- A row that a DELETE does not match stays the row of its project.
pub find_lease-delete_where :
    (p : Text) (test : Lease → Bool) (table : LeaseTable) {row : Lease}
    → find_lease p table ≡ some row
    → test row ≡ false
    → find_lease p (delete_where test table) ≡ some row
unfolding find_lease delete_where
find_lease-delete_where p test [] h k = cc
find_lease-delete_where p test (r ∷ table) {row} h k =
    elim (Bool-cases (text_eq r.project_name p)) [
      | inl same ↦
          let found : ◌≡◌ {A = Option Lease} (some r) (some row) = rw same at h in
          let first : r ≡ row = cc in
          let stays : test r ≡ false = rw first k in rw (stays, same) found
      | inr other ↦
          let later = find_lease-delete_where p test table (rw other at h) k in
          elim (Bool-cases (test r)) [
            | inl gone ↦ rw gone later
            | inr stays ↦ rw (stays, other) later
          ]
    ]

-- An operation of some node.
pub data Event : Type 0 where
  acquire : Text → Text → ℕ → ℕ → Event
  release : Text → Text → Event

abbrev pub apply_event : Event → LeaseTable → LeaseTable × Bool
apply_event (acquire p h expires_at now) table =
    try_acquire_compaction_lease p h expires_at now table
apply_event (release p h) table = (release_compaction_lease p h table, true)

-- The table behind a sequence of operations, and what each answered.
pub run_events : List Event → LeaseTable → LeaseTable × List Bool
run_events [] table = (table, [])
run_events (event ∷ events) table =
    let (table1, answer) = apply_event event table in
    let (table2, answers) = run_events events table1 in (table2, answer ∷ answers)

-- An operation by another holder, before time `until`.
abbrev pub IsForeign : Text → ℕ → Event → Type 0
IsForeign holder until (acquire p h expires_at now) = (text_eq holder h ≡ false) × (now < until)
IsForeign holder until (release p h) = text_eq holder h ≡ false

-- No acquisition of the project was answered by yes.
abbrev pub Refused : Text → List Event → List Bool → Type 0
Refused p [] answers = Unit {0}
Refused p (event ∷ events) [] = ⊥
Refused p (acquire q h expires_at now ∷ events) (answer ∷ answers) =
    (text_eq q p ≡ true → answer ≡ false) × Refused p events answers
Refused p (release q h ∷ events) (answer ∷ answers) = Refused p events answers

taken_and_free :
    (p q : Text) (table : LeaseTable) {row : Lease}
    → q ≡ p
    → find_lease q table ≡ none
    → find_lease p table ≡ some row
    → ⊥
taken_and_free p q table e free taken = cc (ap (λ t. find_lease t table) e)

no_test : ◌≡◌ {A = Bool} false true → ⊥
no_test e = cc

acquire_foreign :
    (p holder : Text) (until : ℕ) (q h : Text) (expires_at now : ℕ) (table : LeaseTable)
    (row : Lease)
    → find_lease p table ≡ some row
    → row.holder_id ≡ holder
    → row.lease_expires_at_unix_nano ≡ until
    → text_eq holder h ≡ false
    → now < until
    → (find_lease p (try_acquire_compaction_lease q h expires_at now table).0 ≡ some row)
      × (text_eq q p ≡ true → (try_acquire_compaction_lease q h expires_at now table).1 ≡ false)
unfolding try_acquire_compaction_lease insert_or_nothing delete_where find_lease
acquire_foreign p holder until q h expires_at now table row found own exp other early =
    let late : leb row.lease_expires_at_unix_nano now ≡ false = lt→leb _ _ (rw exp early) in
    let theirs : text_eq row.holder_id h ≡ false = rw own other in
    let stays : clearable q h now row ≡ false = ground arith in
    let kept = find_lease-delete_where p (clearable q h now) table found stays in
    elim (Option-cases (find_lease q (delete_where (clearable q h now) table))) [
      | inl free ↦ elim (Bool-cases (text_eq q p)) [
        | inl same ↦
            let e : q ≡ p = text_eq→eq q p same in absurd (taken_and_free p q _ e free kept)
        | inr differs ↦ rw (free, differs) (kept, λ same. absurd (no_test same))
      ]
      | inr (r, taken) ↦ rw taken (kept, λ e. refl)
    ]

release_foreign :
    (p holder q h : Text) (table : LeaseTable) (row : Lease)
    → find_lease p table ≡ some row
    → row.holder_id ≡ holder
    → text_eq holder h ≡ false
    → find_lease p (release_compaction_lease q h table) ≡ some row
unfolding release_compaction_lease
release_foreign p holder q h table row found own other =
    let theirs : text_eq row.holder_id h ≡ false = rw own other in
    find_lease-delete_where p (held_by q h) table found (ground arith)

-- While a lease has not expired, no sequence of operations by other holders, in any order and of
-- any length, takes or removes it, and each of their acquisitions of the project is refused.
pub lease_exclusive :
    (p holder : Text) (until : ℕ) (events : List Event) (table : LeaseTable) (row : Lease)
    → find_lease p table ≡ some row
    → row.holder_id ≡ holder
    → row.lease_expires_at_unix_nano ≡ until
    → All (IsForeign holder until) events
    → (find_lease p (run_events events table).0 ≡ some row)
      × Refused p events (run_events events table).1
unfolding run_events
lease_exclusive p holder until [] table row found own exp foreign = (found, tt)
lease_exclusive p holder until (acquire q h e now ∷ events) table row found own exp foreign =
    let (kept, refused) =
      acquire_foreign p holder until q h e now table row found own exp foreign.0.0 foreign.0.1 in
    let (last, others) = lease_exclusive p holder until events _ row kept own exp foreign.1 in
    (last, (refused, others))
lease_exclusive p holder until (release q h ∷ events) table row found own exp foreign =
    let kept = release_foreign p holder q h table row found own foreign.0 in
    lease_exclusive p holder until events _ row kept own exp foreign.1
