-- ===== src/Retention.antt =====
-- src/query/retention.rs: the policies of the projects and their enforcement. The tables projects and
-- project_retention_policies are lists of rows, and their statements succeed. The expiry of a
-- project's runs before a cutoff is a parameter. Times are nanoseconds since the epoch, as an i64.
pub mod Policies
use kevindb.Base.{
  ℕ, ◌+◌, ◌^◌, Bool, Option, none, some, List, [], ◌∷◌, leb, ◌==◌, length, if◌then◌else◌,
}
use kevindb.Base.Int.{ℤ, checked_sub}
use kevindb.Base.Text.{Text, text_eq}
use kevindb.Base.Result.{Result, ok, err}
use kevindb.Search.Terms.{leb_bytes}
use kevindb.Search.Query.{one_of}

pub record ProjectRetentionPolicy : Type 0 where
  pub project_name : Text
  pub retention_period_nanos : ℕ

pub record RetentionEnforcementReceipt : Type 0 where
  pub projects_checked : ℕ
  pub expired_runs : ℕ

pub data RetentionError : Type 0 where
  zero_period period_too_long cutoff_underflow expiry_failed : RetentionError

pub record RetentionTables : Type 0 where
  pub projects : List Text
  pub policies : List ProjectRetentionPolicy

unfoldable pub duration_nanos : ℕ → Result RetentionError ℕ
duration_nanos duration =
    if duration == 0
    then err zero_period
    else if leb (2 ^ 63) duration
    then err period_too_long
    else ok duration

-- `ON CONFLICT (name) DO NOTHING`
abbrev pub ensure_project : Text → List Text → List Text
ensure_project project projects = if one_of projects project then projects else project ∷ projects

-- `ON CONFLICT (project_name) DO UPDATE`
abbrev pub upsert_policy : Text → ℕ → List ProjectRetentionPolicy → List ProjectRetentionPolicy
upsert_policy project period [] =
    record { project_name = project; retention_period_nanos = period } ∷ []
upsert_policy project period (policy ∷ policies) =
    let rest = upsert_policy project period policies in
    if text_eq policy.project_name project
    then record policy { retention_period_nanos = period } ∷ policies
    else policy ∷ rest

abbrev set_checked :
    Text
    → RetentionTables
    → Result RetentionError ℕ
    → Result RetentionError (Unit {0}) × RetentionTables
set_checked project tables (err e) = (err e, tables)
set_checked project tables (ok period) = (
  ok tt,
  record {
    projects = ensure_project project tables.projects;
    policies = upsert_policy project period tables.policies;
  },
)

unfoldable pub set_project_retention_policy :
    Text → ℕ → RetentionTables → Result RetentionError (Unit {0}) × RetentionTables
set_project_retention_policy project period tables =
    set_checked project tables (duration_nanos period)

abbrev pub find_policy : Text → List ProjectRetentionPolicy → Option ProjectRetentionPolicy
find_policy project [] = none
find_policy project (policy ∷ policies) =
    if text_eq policy.project_name project then some policy else find_policy project policies

unfoldable pub load_project_retention_policy :
    Text → RetentionTables → Option ProjectRetentionPolicy
load_project_retention_policy project tables = find_policy project tables.policies

-- `ORDER BY project_name`
abbrev insert_by_name :
    ProjectRetentionPolicy → List ProjectRetentionPolicy → List ProjectRetentionPolicy
insert_by_name policy [] = policy ∷ []
insert_by_name policy (next ∷ sorted) =
    let rest = insert_by_name policy sorted in
    if leb_bytes policy.project_name next.project_name then policy ∷ next ∷ sorted else next ∷ rest

abbrev sort_by_name : List ProjectRetentionPolicy → List ProjectRetentionPolicy
sort_by_name [] = []
sort_by_name (policy ∷ policies) = insert_by_name policy (sort_by_name policies)

unfoldable pub list_project_retention_policies : RetentionTables → List ProjectRetentionPolicy
list_project_retention_policies tables = sort_by_name tables.policies

module _ {Runs : Type 0}
    (expire_project_runs_before : Text → ℤ → Runs → Result RetentionError ℕ × Runs) (now : ℤ) where
  -- The loop, with the count of expired runs so far.
  abbrev pub expire_before : Text → Option ℤ → Runs → Result RetentionError ℕ × Runs
  expire_before project none runs = (err cutoff_underflow, runs)
  expire_before project (some cutoff) runs = expire_project_runs_before project cutoff runs

  abbrev pub enforce_policies :
      List ProjectRetentionPolicy → ℕ → Runs → Result RetentionError ℕ × Runs
  enforce_policies [] expired runs = (ok expired, runs)
  enforce_policies (policy ∷ policies) expired runs =
      let cutoff = checked_sub now policy.retention_period_nanos in
      let (done, runs1) = expire_before policy.project_name cutoff runs in
      elim done [
        | err e ↦ (err e, runs1)
        | ok count ↦ enforce_policies policies (expired + count) runs1
      ]

  abbrev enforcement_receipt :
      ℕ → Result RetentionError ℕ × Runs → Result RetentionError RetentionEnforcementReceipt × Runs
  enforcement_receipt checked (err e, runs) = (err e, runs)
  enforcement_receipt checked (ok expired, runs) =
      (ok (record { projects_checked = checked; expired_runs = expired }), runs)

  unfoldable pub enforce_project_retention_policies_at :
      RetentionTables → Runs → Result RetentionError RetentionEnforcementReceipt × Runs
  enforce_project_retention_policies_at tables runs =
      let policies = list_project_retention_policies tables in
      enforcement_receipt (length policies) (enforce_policies policies 0 runs)
