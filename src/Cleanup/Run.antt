-- ===== src/Cleanup/Run.antt =====
-- The two cleanups of src/query/cleanup.rs over the object store and the table. The paths of the
-- crate object_store are parameters: `path_from` is its `Path::from`, which drops empty segments and
-- encodes some characters, and `location` prints a path. Rows hold the texts that `path_from` takes,
-- and a listing has paths.
use kevindb.Base.{ℕ, ◌+◌, Bool, false, ◌||◌, List, [], ◌∷◌, if◌then◌else◌}
use kevindb.Base.Text.{Text}
use kevindb.Base.Result.{Result, ok, err}
use kevindb.Cleanup.{
  TraceSegment, ObjectCleanupCandidate, ObjectCleanupReceipt, OrphanObjectCandidate,
  OrphanObjectCleanupReceipt, ObjectStoreError, not_found, other_failure, CleanupError,
  delete_failed, list_failed, duration_nanos, load_compacted_cleanup_candidates,
  mark_compacted_objects_cleaned, is_empty_list, cleanup_receipt, candidate_uris,
  load_referenced_object_uris, unreferenced, sort_by_uri, orphan_receipt, orphan_uris,
}

module _ {ObjectPath Store : Type 0} (path_from : Text → ObjectPath) (location : ObjectPath → Text)
    (list : Store → Result ObjectStoreError (List (ObjectPath × ℕ)))
    (delete : ObjectPath → Store → Result ObjectStoreError (Unit {0}) × Store) where
  abbrev pub absorb_not_found : Result ObjectStoreError (Unit {0}) → Result CleanupError (Unit {0})
  absorb_not_found (ok done) = ok done
  absorb_not_found (err not_found) = ok tt
  absorb_not_found (err other_failure) = err delete_failed

  unfoldable pub delete_if_exists : Text → Store → Result CleanupError (Unit {0}) × Store
  delete_if_exists uri store =
      let (done, store1) = delete (path_from uri) store in (absorb_not_found done, store1)

  -- `delete_if_exists(…).await?; deleted_objects += 1;` for each object.
  unfoldable pub delete_each : List Text → ℕ → Store → Result CleanupError ℕ × Store
  delete_each [] deleted store = (ok deleted, store)
  delete_each (uri ∷ uris) deleted store =
      let (done, store1) = delete_if_exists uri store in
      elim done [ err e ↦ (err e, store1) | ok u ↦ delete_each uris (deleted + 1) store1 ]

  unfoldable pub delete_candidates :
      List ObjectCleanupCandidate → ℕ → Store → Result CleanupError ℕ × Store
  delete_candidates [] deleted store = (ok deleted, store)
  delete_candidates (candidate ∷ candidates) deleted store =
      let (done, store1) = delete_each (candidate_uris candidate) deleted store in
      elim done [
        | err e ↦ (err e, store1)
        | ok deleted1 ↦ delete_candidates candidates deleted1 store1
      ]

  -- Behind the loop: the rows are marked only if each removal succeeded.
  abbrev pub mark_deleted :
      List ObjectCleanupCandidate
      → ℕ
      → List TraceSegment
      → Result CleanupError ℕ × Store
      → Result CleanupError ObjectCleanupReceipt × Store × List TraceSegment
  mark_deleted candidates now table (err e, store) = (err e, store, table)
  mark_deleted candidates now table (ok deleted, store) = (
    ok (cleanup_receipt false candidates deleted),
    store,
    mark_compacted_objects_cleaned candidates now table,
  )

  abbrev pub cleanup_with_grace :
      ℕ
      → Bool
      → Store
      → List TraceSegment
      → Result CleanupError ℕ
      → Result CleanupError ObjectCleanupReceipt × Store × List TraceSegment
  cleanup_with_grace now dry_run store table (err e) = (err e, store, table)
  cleanup_with_grace now dry_run store table (ok grace) =
      let candidates = load_compacted_cleanup_candidates now grace table in
      if dry_run || is_empty_list candidates
      then (ok (cleanup_receipt dry_run candidates 0), store, table)
      else mark_deleted candidates now table (delete_candidates candidates 0 store)

  unfoldable pub cleanup_compacted_objects_at :
      ℕ
      → ℕ
      → Bool
      → Store
      → List TraceSegment
      → Result CleanupError ObjectCleanupReceipt × Store × List TraceSegment
  cleanup_compacted_objects_at now grace_period dry_run store table =
      cleanup_with_grace now dry_run store table (duration_nanos grace_period)

  abbrev pub count_orphans :
      List OrphanObjectCandidate
      → Result CleanupError ℕ × Store
      → Result CleanupError OrphanObjectCleanupReceipt × Store
  count_orphans candidates (err e, store) = (err e, store)
  count_orphans candidates (ok deleted, store) =
      (ok (orphan_receipt false candidates deleted), store)

  -- `meta.location.to_string()`, with the size.
  abbrev pub printed : List (ObjectPath × ℕ) → List (Text × ℕ)
  printed [] = []
  printed ((path, bytes) ∷ objects) = (location path, bytes) ∷ printed objects

  abbrev pub cleanup_listed :
      Bool
      → List Text
      → Store
      → Result ObjectStoreError (List (ObjectPath × ℕ))
      → Result CleanupError OrphanObjectCleanupReceipt × Store
  cleanup_listed dry_run referenced store (err e) = (err list_failed, store)
  cleanup_listed dry_run referenced store (ok objects) =
      let candidates = sort_by_uri (unreferenced referenced (printed objects)) in
      if dry_run
      then (ok (orphan_receipt dry_run candidates 0), store)
      else count_orphans candidates (delete_each (orphan_uris candidates) 0 store)

  unfoldable pub cleanup_orphaned_objects :
      Bool → Store → List TraceSegment → Result CleanupError OrphanObjectCleanupReceipt × Store
  cleanup_orphaned_objects dry_run store table =
      cleanup_listed dry_run (load_referenced_object_uris table) store (list store)
