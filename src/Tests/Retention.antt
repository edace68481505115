-- ===== src/Tests/Retention.antt =====
-- Retention policies on concrete inputs.
use kevindb.Base.{ℕ, ◌-◌, ◌^◌, ◌≡◌, refl, arith, some, [], ◌∷◌, if◌then◌else◌}
use kevindb.Base.Int.{ℤ, pos, negsuc}
use kevindb.Base.Text.{Text, text, text_eq}
use kevindb.Base.Result.{Result, ok, err}
use kevindb.Retention.{
  RetentionTables, RetentionError, cutoff_underflow, set_project_retention_policy,
  load_project_retention_policy, enforce_project_retention_policies_at,
  list_project_retention_policies,
}
use kevindb.Retention.Policies.{load_project_retention_policy-set_project_retention_policy}

abbrev before : RetentionTables
before = record {
  projects = text "demo" ∷ [];
  policies = record { project_name = text "demo"; retention_period_nanos = 5 } ∷ [];
}

abbrev after : RetentionTables
after = (set_project_retention_policy (text "demo") 9 before).1

load_project_retention_policy-set_project_retention_policy_example :
    ((set_project_retention_policy (text "demo") 9 before).0 ≡ ok tt)
    × (load_project_retention_policy (text "demo") after ≡ (
        if text_eq (text "demo") (text "demo")
        then some (record { project_name = text "demo"; retention_period_nanos = 9 })
        else load_project_retention_policy (text "demo") before))
load_project_retention_policy-set_project_retention_policy_example =
    load_project_retention_policy-set_project_retention_policy (text "demo") (text "demo") 9 before
      after (omega arith) (omega arith) refl

-- An expiry that removes as many runs of each project as its cutoff says.
abbrev expire_some : Text → ℤ → ℕ → Result RetentionError ℕ × ℕ
expire_some project (pos cutoff) runs = (ok cutoff, runs - cutoff)
expire_some project (negsuc n) runs = (ok 0, runs)

enforced :
    enforce_project_retention_policies_at expire_some (pos 7) before 7
    ≡ (ok (record { projects_checked = 1; expired_runs = 2 }), 5)
unfolding enforce_project_retention_policies_at list_project_retention_policies
enforced = refl

underflow :
    (enforce_project_retention_policies_at expire_some (negsuc (2 ^ 63 - 1)) before 7).0
    ≡ err cutoff_underflow
unfolding enforce_project_retention_policies_at list_project_retention_policies
underflow = refl
