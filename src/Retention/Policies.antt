-- ===== src/Retention/Policies.antt =====
-- Setting a policy and loading it.
use kevindb.Base.{
  ℕ, ◌^◌, ◌≤◌, ◌<◌, ◌≡◌, refl, sym, arith, inl, inr, Bool, true, false, some, List, [], ◌∷◌, leb,
  ◌==◌, if◌then◌else◌, Bool-cases, lt→leb,
}
use kevindb.Base.Text.{Text, text_eq, text_eq_refl, text_eq→eq}
use kevindb.Base.Result.{ok}
use kevindb.Retention.{
  ProjectRetentionPolicy, RetentionTables, duration_nanos, upsert_policy,
  set_project_retention_policy, find_policy, load_project_retention_policy,
}

find_policy-upsert_policy :
    (p q : Text) (period : ℕ) (policies : List ProjectRetentionPolicy)
    → find_policy q (upsert_policy p period policies) ≡ (
        if text_eq p q
        then some (record { project_name = p; retention_period_nanos = period })
        else find_policy q policies)
find_policy-upsert_policy p q period [] = refl
find_policy-upsert_policy p q period (policy ∷ policies) =
    elim (Bool-cases (text_eq policy.project_name p)) [
      | inl same ↦
          let e : policy.project_name ≡ p = text_eq→eq policy.project_name p same in
          elim (Bool-cases (text_eq p q)) [
            | inl asked ↦ rw (same, e, asked) refl
            | inr other ↦ rw (same, e, other) refl
          ]
      | inr differs ↦ elim (Bool-cases (text_eq policy.project_name q)) [
        | inr next ↦ rw (differs, next) (find_policy-upsert_policy p q period policies)
        | inl asked ↦
            let e : policy.project_name ≡ q = text_eq→eq policy.project_name q asked in
            rw (differs, asked, apart policy.project_name q e differs) refl
      ]
    ]
  where
    apart : (n q : Text) → n ≡ q → text_eq n p ≡ false → text_eq p q ≡ false
    apart n q e h = elim (Bool-cases (text_eq p q)) [
      | inr other ↦ other
      | inl same ↦
          let f : p ≡ q = text_eq→eq p q same in absurd (clash (text_eq_refl q) (rw (e, f) at h))
    ]
      where
        clash : {b : Bool} → b ≡ true → b ≡ false → ⊥
        clash e f = cc

-- For a period that is not zero and below 2^63 nanoseconds, `set_project_retention_policy` succeeds;
-- afterwards the load for its project returns the period, and the load for any other project what
-- it returned before.
pub load_project_retention_policy-set_project_retention_policy :
    (p q : Text) (period : ℕ) (tables tables' : RetentionTables)
    → 1 ≤ period
    → period < 2 ^ 63
    → (set_project_retention_policy p period tables).1 ≡ tables'
    → ((set_project_retention_policy p period tables).0 ≡ ok tt)
      × (load_project_retention_policy q tables' ≡ (
          if text_eq p q
          then some (record { project_name = p; retention_period_nanos = period })
          else load_project_retention_policy q tables))
unfolding set_project_retention_policy duration_nanos load_project_retention_policy
load_project_retention_policy-set_project_retention_policy p q period tables tables' low high e =
    let given : (period == 0) ≡ false = ground arith in
    let short : leb (2 ^ 63) period ≡ false = lt→leb _ _ high in
    (
      rw (given, short) refl,
      rw (sym e) (rw (given, short) (find_policy-upsert_policy p q period tables.policies)),
    )
