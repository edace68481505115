-- ===== src/Tests/Compaction.antt =====
-- The lease table and a pass of the service on concrete inputs.
use kevindb.Base.{ℕ, ◌≤◌, ◌+◌, ◌≡◌, refl, arith, some, List, [], ◌∷◌, length}
use kevindb.Base.Text.{Text, text, trim}
use kevindb.Base.Result.{Result, ok}
use kevindb.Compaction.Leases.{
  Lease, LeaseTable, find_lease, try_acquire_compaction_lease, release_compaction_lease,
  insert_or_nothing, delete_where,
}
use kevindb.Compaction.Leases.Exclusion.{
  Event, acquire, release, run_events, Refused, lease_exclusive,
}
use kevindb.Compaction.Leases.Cleared.{NoLease}
use kevindb.Compaction.Service.{
  ServiceError, CompactReceipt, CompactionServiceReceipt, run_compaction_service_once,
  normalize_holder_id, duration_nanos, serve_projects, serve_project, lease_expiry,
  compact_with_lease, after_compaction,
}
use kevindb.Compaction.Service.Released.{Listed}
use kevindb.Compaction.Service.Pass.{run_compaction_service_once-releases}

abbrev held : Lease
held = record { project_name = text "demo"; holder_id = text "a"; lease_expires_at_unix_nano = 100 }

held_found : find_lease (text "demo") (held ∷ []) ≡ some held
unfolding find_lease
held_found = refl

abbrev attempts : List Event
attempts =
    acquire (text "demo") (text "b") 120 99
    ∷ release (text "demo") (text "b")
    ∷ acquire (text "demo") (text "c") 150 50
    ∷ []

lease_exclusive_example :
    (find_lease (text "demo") (run_events attempts (held ∷ [])).0 ≡ some held)
    × Refused (text "demo") attempts (run_events attempts (held ∷ [])).1
lease_exclusive_example =
    lease_exclusive (text "demo") (text "a") 100 attempts (held ∷ []) held held_found refl refl
      ((refl, omega arith), (refl, ((refl, omega arith), tt)))

abbrev clock : ℕ → Result ServiceError ℕ
clock i = ok (10 + i)

abbrev two_runs : CompactReceipt
two_runs = record { compacted_runs = 2; compacted_segments = 1; written_segments = 1 }

abbrev compact : Text → LeaseTable → Result ServiceError CompactReceipt × LeaseTable
compact project table = (ok two_runs, table)

abbrev served : CompactionServiceReceipt
served = record {
  projects_scanned = 1;
  leases_acquired = 1;
  compacted_runs = 2;
  compacted_segments = 1;
  written_segments = 1;
}

one_pass :
    run_compaction_service_once clock compact (text " b ") 50 (text "demo" ∷ []) []
    ≡ (ok served, [])
unfolding run_compaction_service_once normalize_holder_id duration_nanos serve_projects
    serve_project lease_expiry compact_with_lease after_compaction try_acquire_compaction_lease
    release_compaction_lease insert_or_nothing delete_where find_lease trim
one_pass = refl

run_compaction_service_once-releases_example :
    (served.projects_scanned ≡ length (text "demo" ∷ []))
    × (served.leases_acquired ≤ length (text "demo" ∷ []))
    × ((q : Text) → Listed q (text "demo" ∷ []) → NoLease (trim (text " b ")) q [])
run_compaction_service_once-releases_example =
    run_compaction_service_once-releases clock compact (text " b ") 50 (text "demo" ∷ []) [] []
      served (λ p r t k. k) one_pass
