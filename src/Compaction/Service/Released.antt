-- ===== src/Compaction/Service/Released.antt =====
-- What the loop over the projects does to the leases of one holder.
use kevindb.Base.{
  ℕ, ◌+◌, ◌≤◌, ◌≡◌, refl, ◌∙◌, subst, arith, inl, inr, ◌⊎◌, Bool, true, false, List, [], ◌∷◌,
  Bool-cases, length,
}
use kevindb.Base.Text.{Text, text_eq, text_eq→eq}
use kevindb.Base.Result.{Result, ok, err}
use kevindb.Compaction.Leases.{LeaseTable, try_acquire_compaction_lease}
use kevindb.Compaction.Service.{
  ServiceError, CompactReceipt, CompactionServiceReceipt, Outcome, after_compaction,
  compact_with_lease, serve_project, serve_projects, with_times,
}
use kevindb.Compaction.Leases.Cleared.{NoLease, acquire-NoLease, refused-NoLease, release-NoLease}

abbrev pub Listed : Text → List Text → Type 0
Listed q [] = ⊥
Listed q (p ∷ projects) = (text_eq p q ≡ true) ⊎ Listed q projects

-- What a served project leaves for another, or for itself.
abbrev Serves : Text → Text → Text → CompactionServiceReceipt → LeaseTable → Outcome → Type 0
Serves h p q receipt table (err e, table') = Unit {0}
Serves h p q receipt table (ok receipt', table') =
    (receipt'.leases_acquired ≤ receipt.leases_acquired + 1)
    × (receipt'.projects_scanned ≡ receipt.projects_scanned)
    × (((text_eq p q ≡ true) ⊎ NoLease h q table) → NoLease h q table')

-- What the loop leaves for a project.
abbrev pub ServesAll :
    Text → Text → List Text → CompactionServiceReceipt → LeaseTable → Outcome → Type 0
ServesAll h q projects receipt table (err e, table') = Unit {0}
ServesAll h q projects receipt table (ok receipt', table') =
    (receipt'.leases_acquired ≤ receipt.leases_acquired + length projects)
    × (receipt'.projects_scanned ≡ receipt.projects_scanned)
    × ((Listed q projects ⊎ NoLease h q table) → NoLease h q table')

module _ (clock : ℕ → Result ServiceError ℕ)
    (compact_project : Text → LeaseTable → Result ServiceError CompactReceipt × LeaseTable)
    (h : Text) (duration : ℕ)
    (quiet : (p q : Text) (table : LeaseTable)
      → NoLease h q table
      → NoLease h q (compact_project p table).1) where
  after_compaction-Serves :
      (p q : Text) (receipt : CompactionServiceReceipt) (table : LeaseTable)
      (done : Result ServiceError CompactReceipt × LeaseTable)
      → (((text_eq p q ≡ true) ⊎ NoLease h q table) → (text_eq p q ≡ true) ⊎ NoLease h q done.1)
      → Serves h p q receipt table
          (after_compaction clock compact_project h duration p receipt done)
  unfolding after_compaction
  after_compaction-Serves p q receipt table (err e, t) k = tt
  after_compaction-Serves p q receipt table (ok c, t) k =
      (omega arith, refl, λ before. release-NoLease h q p t (k before))

  compact_with_lease-Serves :
      (p q : Text) (receipt : CompactionServiceReceipt) (now expires_at : ℕ) (table : LeaseTable)
      → Serves h p q receipt table
          (compact_with_lease clock compact_project h duration p receipt now expires_at table)
  unfolding compact_with_lease
  compact_with_lease-Serves p q receipt now expires_at table =
      let tried = try_acquire_compaction_lease p h expires_at now table in
      elim (Bool-cases tried.1) [
        | inl acquired ↦ rw acquired (
            after_compaction-Serves p q receipt table (compact_project p tried.0) (λ before.
              elim (Bool-cases (text_eq p q)) [
                | inl same ↦ inl same
                | inr other ↦ inr (
                    quiet p q tried.0 (
                      acquire-NoLease h q p expires_at now table other
                        (unserved p q table other before)))
              ]))
        | inr refused ↦ rw refused (
          omega arith,
          refl,
          λ before. elim (Bool-cases (text_eq p q)) [
            | inl same ↦
                subst (λ r. NoLease h r tried.0) (text_eq→eq p q same)
                  (refused-NoLease h p expires_at now table refused)
            | inr other ↦
                acquire-NoLease h q p expires_at now table other (unserved p q table other before)
          ],
        )
      ]
    where
      unserved :
          (p q : Text) (table : LeaseTable)
          → text_eq p q ≡ false
          → ((text_eq p q ≡ true) ⊎ NoLease h q table)
          → NoLease h q table
      unserved p q table other (inl same) = absurd (clash same other)
        where
          clash : {b : Bool} → b ≡ true → b ≡ false → ⊥
          clash e f = cc
      unserved p q table other (inr k) = k

  with_times-Serves :
      (p q : Text) (receipt : CompactionServiceReceipt) (table : LeaseTable)
      (times : Result ServiceError (ℕ × ℕ))
      → Serves h p q receipt table
          (with_times clock compact_project h duration p receipt table times)
  with_times-Serves p q receipt table (err e) = tt
  with_times-Serves p q receipt table (ok (now, expires_at)) =
      compact_with_lease-Serves p q receipt now expires_at table

  serve_project-Serves :
      (p q : Text) (i : ℕ) (receipt : CompactionServiceReceipt) (table : LeaseTable)
      → Serves h p q receipt table
          (serve_project clock compact_project h duration p i receipt table)
  unfolding serve_project
  serve_project-Serves p q i receipt table = with_times-Serves p q receipt table _

  -- The loop after a project, by the project's outcome.
  ServesAll-next :
      (p q : Text) (projects : List Text) (receipt : CompactionServiceReceipt) (table : LeaseTable)
      (receipt1 : CompactionServiceReceipt) (table1 : LeaseTable) (rest : Outcome)
      → Serves h p q receipt table (ok receipt1, table1)
      → ServesAll h q projects receipt1 table1 rest
      → ServesAll h q (p ∷ projects) receipt table rest
  ServesAll-next p q projects receipt table receipt1 table1 (err e, table') k rest = tt
  ServesAll-next p q projects receipt table receipt1 table1 (ok receipt', table') k rest =
      (omega (arith, k.0, rest.0), rest.1 ∙ k.1, λ before. rest.2 (next before))
    where
      next :
          ((Listed q (p ∷ projects)) ⊎ NoLease h q table) → (Listed q projects ⊎ NoLease h q table1)
      next (inl (inl same)) = inr (k.2 (inl same))
      next (inl (inr later)) = inl later
      next (inr none_held) = inr (k.2 (inr none_held))

  pub serve_projects-ServesAll :
      (q : Text) (projects : List Text) (i : ℕ) (receipt : CompactionServiceReceipt)
      (table : LeaseTable)
      → ServesAll h q projects receipt table
          (serve_projects clock compact_project h duration projects i receipt table)
  unfolding serve_projects
  serve_projects-ServesAll q [] i receipt table = (omega arith, refl, λ before. nothing before)
    where
      nothing : ((Listed q []) ⊎ NoLease h q table) → NoLease h q table
      nothing (inl never) = absurd never
      nothing (inr k) = k
  serve_projects-ServesAll q (p ∷ projects) i receipt table =
      by_outcome (serve_project clock compact_project h duration p i receipt table)
        (serve_project-Serves p q i receipt table) (serve_projects-ServesAll q projects (i + 1))
    where
      by_outcome :
          (o : Outcome)
          → Serves h p q receipt table o
          → ((receipt1 : CompactionServiceReceipt) (table1 : LeaseTable)
              → ServesAll h q projects receipt1 table1 (
                  serve_projects clock compact_project h duration projects (i + 1) receipt1 table1))
          → ServesAll h q (p ∷ projects) receipt table (elim o.0 [
            | err e ↦ (err e, o.1)
            | ok receipt1 ↦
                serve_projects clock compact_project h duration projects (i + 1) receipt1 o.1
          ])
      by_outcome (err e, table1) k later = tt
      by_outcome (ok receipt1, table1) k later =
          ServesAll-next p q projects receipt table receipt1 table1
            (serve_projects clock compact_project h duration projects (i + 1) receipt1 table1) k
            (later receipt1 table1)
