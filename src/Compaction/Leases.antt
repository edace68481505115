-- ===== src/Compaction/Leases.antt =====
-- The lease table and the statements that `try_acquire_compaction_lease` and
-- `release_compaction_lease` run on it. The two statements of an acquisition stand in one
-- transaction, so that each operation is one step. Times are nanoseconds since the epoch.
pub mod Exclusion
pub mod Cleared
use kevindb.Base.{
  ℕ, ◌≡◌, Bool, true, false, ◌&&◌, ◌||◌, not, Option, none, some, List, [], ◌∷◌, leb, if◌then◌else◌,
}
use kevindb.Base.Text.{Text, text_eq}

-- A row of compaction_leases; `project_name` is its primary key.
pub record Lease : Type 0 where
  pub project_name : Text
  pub holder_id : Text
  pub lease_expires_at_unix_nano : ℕ

abbrev pub LeaseTable : Type 0
LeaseTable = List Lease

-- `DELETE … WHERE test`
unfoldable pub delete_where : (Lease → Bool) → LeaseTable → LeaseTable
delete_where test [] = []
delete_where test (row ∷ table) =
    let rest = delete_where test table in if test row then rest else row ∷ rest

-- The row with a primary key.
unfoldable pub find_lease : Text → LeaseTable → Option Lease
find_lease project_name [] = none
find_lease project_name (row ∷ table) =
    if text_eq row.project_name project_name then some row else find_lease project_name table

-- The condition of the DELETE in an acquisition.
abbrev pub clearable : Text → Text → ℕ → Lease → Bool
clearable project_name holder_id now row =
    text_eq row.project_name project_name
    && (leb row.lease_expires_at_unix_nano now || text_eq row.holder_id holder_id)

-- `INSERT … ON CONFLICT (project_name) DO NOTHING RETURNING holder_id`, by the row that is there.
abbrev on_conflict : Lease → LeaseTable → Option Lease → LeaseTable × Bool
on_conflict row table (some other) = (table, false)
on_conflict row table none = (row ∷ table, true)

unfoldable pub insert_or_nothing : Lease → LeaseTable → LeaseTable × Bool
insert_or_nothing row table = on_conflict row table (find_lease row.project_name table)

unfoldable pub try_acquire_compaction_lease : Text → Text → ℕ → ℕ → LeaseTable → LeaseTable × Bool
try_acquire_compaction_lease project_name holder_id lease_expires_at now table =
    insert_or_nothing
      (record {
        project_name = project_name;
        holder_id = holder_id;
        lease_expires_at_unix_nano = lease_expires_at;
      })
      (delete_where (clearable project_name holder_id now) table)

-- The condition of the DELETE in a release.
abbrev pub held_by : Text → Text → Lease → Bool
held_by project_name holder_id row =
    text_eq row.project_name project_name && text_eq row.holder_id holder_id

unfoldable pub release_compaction_lease : Text → Text → LeaseTable → LeaseTable
release_compaction_lease project_name holder_id table =
    delete_where (held_by project_name holder_id) table
