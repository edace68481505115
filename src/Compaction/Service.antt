-- ===== src/Compaction/Service.antt =====
-- `run_compaction_service_once` of src/ingest/compaction.rs over the lease table. The clock, the
-- list of projects and the compaction of one project are parameters; a compaction may change the
-- table, for itself or for other nodes that run meanwhile.
pub mod Released
pub mod Pass
use kevindb.Base.{
  ℕ, zero, suc, ◌+◌, ◌^◌, ◌≡◌, Bool, true, false, List, [], ◌∷◌, leb, ◌==◌, length, if◌then◌else◌,
}
use kevindb.Base.Text.{Text, trim}
use kevindb.Base.Result.{Result, ok, err, ◌>>=◌, ◌>>◌}
use kevindb.Compaction.Leases.{LeaseTable, try_acquire_compaction_lease, release_compaction_lease}

pub data ServiceError : Type 0 where
  empty_holder_id zero_duration duration_too_long : ServiceError
  clock_failed lease_expiry_overflow compaction_failed : ServiceError

abbrev pub i64_mod : ℕ
i64_mod = 2 ^ 63

pub record CompactReceipt : Type 0 where
  pub compacted_runs : ℕ
  pub compacted_segments : ℕ
  pub written_segments : ℕ

pub record CompactionServiceReceipt : Type 0 where
  pub projects_scanned : ℕ
  pub leases_acquired : ℕ
  pub compacted_runs : ℕ
  pub compacted_segments : ℕ
  pub written_segments : ℕ

abbrev pub add_compaction_receipt :
    CompactionServiceReceipt → CompactReceipt → CompactionServiceReceipt
add_compaction_receipt total next = record total {
  compacted_runs = total.compacted_runs + next.compacted_runs;
  compacted_segments = total.compacted_segments + next.compacted_segments;
  written_segments = total.written_segments + next.written_segments;
}

abbrev pub is_empty_text : Text → Bool
is_empty_text [] = true
is_empty_text (c ∷ s) = false

unfoldable pub normalize_holder_id : Text → Result ServiceError Text
normalize_holder_id holder_id =
    let trimmed = trim holder_id in
    if is_empty_text trimmed then err empty_holder_id else ok trimmed

-- A duration is its number of nanoseconds.
unfoldable pub duration_nanos : ℕ → Result ServiceError ℕ
duration_nanos duration =
    if duration == 0
    then err zero_duration
    else if leb i64_mod duration
    then err duration_too_long
    else ok duration

-- `now.checked_add(lease_duration_nanos)` on i64
unfoldable pub lease_expiry : ℕ → ℕ → Result ServiceError ℕ
lease_expiry now duration =
    if leb i64_mod (now + duration) then err lease_expiry_overflow else ok (now + duration)

abbrev pub Outcome : Type 0
Outcome = Result ServiceError CompactionServiceReceipt × LeaseTable

module _ (clock : ℕ → Result ServiceError ℕ)
    (compact_project : Text → LeaseTable → Result ServiceError CompactReceipt × LeaseTable)
    (holder_id : Text) (duration : ℕ) where
  -- Behind a compaction: `?` on its result, then the release.
  unfoldable pub after_compaction :
      Text → CompactionServiceReceipt → Result ServiceError CompactReceipt × LeaseTable → Outcome
  after_compaction project receipt (err e, table) = (err e, table)
  after_compaction project receipt (ok compacted, table) = (
    ok (
        add_compaction_receipt (record receipt { leases_acquired = receipt.leases_acquired + 1 })
          compacted),
    release_compaction_lease project holder_id table,
  )

  -- The rest of the body once the times are known.
  unfoldable pub compact_with_lease : Text → CompactionServiceReceipt → ℕ → ℕ → LeaseTable → Outcome
  compact_with_lease project receipt now expires_at table =
      let (table1, acquired) =
        try_acquire_compaction_lease project holder_id expires_at now table in
      if acquired
      then after_compaction project receipt (compact_project project table1)
      else (ok receipt, table1)

  abbrev pub with_times :
      Text → CompactionServiceReceipt → LeaseTable → Result ServiceError (ℕ × ℕ) → Outcome
  with_times project receipt table (err e) = (err e, table)
  with_times project receipt table (ok (now, expires_at)) =
      compact_with_lease project receipt now expires_at table

  -- The body of the loop for the project number `i`.
  unfoldable pub serve_project : Text → ℕ → CompactionServiceReceipt → LeaseTable → Outcome
  serve_project project i receipt table =
      with_times project receipt table
        (do now ← clock i; expires_at ← lease_expiry now duration; ok (now, expires_at))

  unfoldable pub serve_projects : List Text → ℕ → CompactionServiceReceipt → LeaseTable → Outcome
  serve_projects [] i receipt table = (ok receipt, table)
  serve_projects (project ∷ projects) i receipt table =
      let (result, table1) = serve_project project i receipt table in
      elim result [
        | err e ↦ (err e, table1)
        | ok receipt1 ↦ serve_projects projects (i + 1) receipt1 table1
      ]

abbrev pub empty_receipt : ℕ → CompactionServiceReceipt
empty_receipt scanned = record {
  projects_scanned = scanned;
  leases_acquired = 0;
  compacted_runs = 0;
  compacted_segments = 0;
  written_segments = 0;
}

module _ (clock : ℕ → Result ServiceError ℕ)
    (compact_project : Text → LeaseTable → Result ServiceError CompactReceipt × LeaseTable) where
  abbrev pub serve_config : Result ServiceError (Text × ℕ) → List Text → LeaseTable → Outcome
  serve_config (err e) projects table = (err e, table)
  serve_config (ok (holder_id, duration)) projects table =
      serve_projects clock compact_project holder_id duration projects 0
        (empty_receipt (length projects)) table

  unfoldable pub run_compaction_service_once : Text → ℕ → List Text → LeaseTable → Outcome
  run_compaction_service_once holder duration projects table =
      serve_config
        (do
          holder_id ← normalize_holder_id holder
          nanos ← duration_nanos duration
          ok (holder_id, nanos))
        projects table
