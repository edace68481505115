-- ===== src/Cleanup/Orphans.antt =====
-- Which objects a cleanup takes for orphans.
use kevindb.Base.{ℕ, ◌≡◌, Bool, ◌&&◌, not, List, [], ◌∷◌, length, if◌then◌else◌}
use kevindb.Base.Text.{Text}
use kevindb.Base.Result.{Result}
use kevindb.Search.Query.{one_of}
use kevindb.Cleanup.{OrphanObjectCleanupReceipt, orphan_uris}

-- The URIs of a printed listing.
abbrev pub listed_uris : List (Text × ℕ) → List Text
listed_uris [] = []
listed_uris ((uri, bytes) ∷ objects) = uri ∷ listed_uris objects

-- The candidates are the listed objects that no row names, and each is counted unless it is a dry run.
abbrev pub TellsOrphans : Bool → List Text → List Text → OrphanObjectCleanupReceipt → Type 0
TellsOrphans dry_run referenced uris receipt =
    ((u : Text)
      → one_of (orphan_uris receipt.candidates) u ≡ (one_of uris u && not (one_of referenced u)))
    × (receipt.deleted_objects ≡ (if dry_run then 0 else length receipt.candidates))
