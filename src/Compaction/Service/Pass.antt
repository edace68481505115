-- ===== src/Compaction/Service/Pass.antt =====
-- A pass of the service as a whole: what holds when it succeeds.
use kevindb.Base.{ℕ, ◌≤◌, ◌≡◌, subst, arith, inl, inr, List, [], Bool-cases, length}
use kevindb.Base.Text.{Text}
use kevindb.Base.Result.{Result, ok, err, ◌>>=◌}
use kevindb.Compaction.Leases.{LeaseTable}
use kevindb.Compaction.Service.{
  ServiceError, CompactReceipt, CompactionServiceReceipt, Outcome, serve_projects,
  run_compaction_service_once, normalize_holder_id, duration_nanos, empty_receipt,
}
use kevindb.Compaction.Leases.Cleared.{NoLease}
use kevindb.Compaction.Service.Released.{Listed, ServesAll, serve_projects-ServesAll}
use kevindb.Compaction.Service.{serve_config, is_empty_text}
use kevindb.Base.Text.{trim}

-- What a pass leaves for a project that it lists.
abbrev Passed : Text → Text → List Text → Outcome → Type 0
Passed h q projects (err e, table) = Unit {0}
Passed h q projects (ok receipt, table) =
    (receipt.projects_scanned ≡ length projects)
    × (receipt.leases_acquired ≤ receipt.projects_scanned)
    × (Listed q projects → NoLease h q table)

module _ (clock : ℕ → Result ServiceError ℕ)
    (compact_project : Text → LeaseTable → Result ServiceError CompactReceipt × LeaseTable)
    (holder : Text) (duration : ℕ) where
  all-Passed :
      (h q : Text) (projects : List Text) (table : LeaseTable) (o : Outcome)
      → ServesAll h q projects (empty_receipt (length projects)) table o
      → Passed h q projects o
  all-Passed h q projects table (err e, t) k = tt
  all-Passed h q projects table (ok receipt, t) k =
      (k.1, omega (arith, k.0, k.1), λ listed. k.2 (inl listed))

  -- Each branch of the checks in front of the loop.
  run-Passed :
      (q : Text) (projects : List Text) (table : LeaseTable)
      (quiet : (p r : Text) (t : LeaseTable)
        → NoLease (trim holder) r t
        → NoLease (trim holder) r (compact_project p t).1)
      → Passed
          (trim holder)
          q
          projects
          (run_compaction_service_once clock compact_project holder duration projects table)
  unfolding run_compaction_service_once normalize_holder_id
  run-Passed q projects table quiet = elim (Bool-cases (is_empty_text (trim holder))) [
    | inl empty ↦ rw empty tt
    | inr given ↦ rw given (with_duration (duration_nanos duration))
  ]
    where
      with_duration :
          (nanos : Result ServiceError ℕ)
          → Passed (trim holder) q projects (
              serve_config clock compact_project
                (nanos >>= (λ n. ok (trim holder, n)))
                projects
                table)
      with_duration (err e) = tt
      with_duration (ok n) =
          all-Passed (trim holder) q projects table
            (serve_projects clock compact_project (trim holder) n projects 0
              (empty_receipt (length projects)) table)
            (serve_projects-ServesAll clock compact_project (trim holder) n quiet q projects 0
              (empty_receipt (length projects)) table)

-- Let `compact_project` grant the holder no lease. When `run_compaction_service_once` succeeds,
-- its receipt counts every project of the list as scanned and at most one lease for each, and the
-- lease table has no row of the trimmed holder id for a project of the list.
pub run_compaction_service_once-releases :
    (clock : ℕ → Result ServiceError ℕ)
    (compact_project : Text → LeaseTable → Result ServiceError CompactReceipt × LeaseTable)
    (holder : Text) (duration : ℕ) (projects : List Text) (table table' : LeaseTable)
    (receipt : CompactionServiceReceipt)
    (quiet : (p r : Text) (t : LeaseTable)
      → NoLease (trim holder) r t
      → NoLease (trim holder) r (compact_project p t).1)
    → run_compaction_service_once clock compact_project holder duration projects table
      ≡ (ok receipt, table')
    → (receipt.projects_scanned ≡ length projects)
      × (receipt.leases_acquired ≤ length projects)
      × ((q : Text) → Listed q projects → NoLease (trim holder) q table')
run_compaction_service_once-releases clock compact_project holder duration projects table table'
      receipt quiet done =
    (
      (passed []).0,
      (subst (λ n. receipt.leases_acquired ≤ n) (passed []).0 (passed []).1),
      λ q listed. (passed q).2 listed,
    )
  where
    passed : (q : Text) → Passed (trim holder) q projects (ok receipt, table')
    passed q =
        subst (λ o. Passed (trim holder) q projects o) done
          (run-Passed clock compact_project holder duration q projects table quiet)
