-- ===== src/Cleanup/Safety.antt =====
-- Which objects a cleanup leaves alone.
use kevindb.Base.{
  some, get_elem?, ℕ, ◌+◌, ◌^◌, ◌≡◌, leb, refl, sym, ◌∙◌, inl, inr, Bool, true, false, ◌||◌, not,
  List, [], ◌∷◌, All, Bool-cases, is_false,
}
use kevindb.Base.Text.{Text}
use kevindb.Base.Result.{Result, ok, err, Result-cases}
use kevindb.Search.Terms.{leb_bytes}
use kevindb.Search.Query.{one_of}
use kevindb.Cleanup.{
  is_none, TraceSegment, ObjectCleanupCandidate, OrphanObjectCandidate, ObjectStoreError,
  CleanupError, duration_nanos, load_compacted_cleanup_candidates, is_empty_list, candidate_uris,
  load_referenced_object_uris, unreferenced, insert_by_uri, sort_by_uri, orphan_uris,
}
use kevindb.Cleanup.Named.{Names, load_referenced_object_uris-Names}
use kevindb.Cleanup.Run.{
  delete_if_exists, delete_each, delete_candidates, mark_deleted, cleanup_with_grace,
  cleanup_compacted_objects_at, count_orphans, printed, cleanup_listed, cleanup_orphaned_objects,
}

module _ (P : OrphanObjectCandidate → Type 0) where
  insert_by_uri-All :
      (candidate : OrphanObjectCandidate) (sorted : List OrphanObjectCandidate)
      → P candidate
      → All P sorted
      → All P (insert_by_uri candidate sorted)
  insert_by_uri-All candidate [] h k = (h, tt)
  insert_by_uri-All candidate (next ∷ sorted) h k =
      elim (Bool-cases (leb_bytes candidate.uri next.uri)) [
        | inl before ↦ rw before (h, k)
        | inr behind ↦ rw behind (k.0, insert_by_uri-All candidate sorted h k.1)
      ]

  sort_by_uri-All :
      (candidates : List OrphanObjectCandidate) → All P candidates → All P (sort_by_uri candidates)
  sort_by_uri-All [] h = tt
  sort_by_uri-All (candidate ∷ candidates) h =
      insert_by_uri-All candidate (sort_by_uri candidates) h.0 (sort_by_uri-All candidates h.1)

module _ {ObjectPath : Type 0} (path_from : Text → ObjectPath) (place : ObjectPath) where
  -- None of the URIs is that of the object at this path.
  abbrev pub Others : List Text → Type 0
  Others uris = All (λ u. path_from u ≡ place → ⊥) uris

  orphan_uris-Others :
      (candidates : List OrphanObjectCandidate)
      → All (λ c. path_from c.uri ≡ place → ⊥) candidates
      → Others (orphan_uris candidates)
  orphan_uris-Others [] h = tt
  orphan_uris-Others (candidate ∷ candidates) h = (h.0, orphan_uris-Others candidates h.1)

module _ {ObjectPath Store : Type 0} (path_from : Text → ObjectPath) (location : ObjectPath → Text)
    (list : Store → Result ObjectStoreError (List (ObjectPath × ℕ)))
    (delete : ObjectPath → Store → Result ObjectStoreError (Unit {0}) × Store)
    (exists : ObjectPath → Store → Bool)
    (delete_other : (p q : ObjectPath) (store : Store)
      → (p ≡ q → ⊥)
      → exists q (delete p store).1 ≡ exists q store)
    (place : ObjectPath) where
  delete_each-exists :
      (uris : List Text) (deleted : ℕ) (store : Store)
      → Others path_from place uris
      → exists place (delete_each path_from location list delete uris deleted store).1
        ≡ exists place store
  unfolding delete_each delete_if_exists
  delete_each-exists [] deleted store h = refl
  delete_each-exists (uri ∷ uris) deleted store h =
      let gone : exists place (delete_if_exists path_from location list delete uri store).1
          ≡ exists place store =
        delete_other (path_from uri) place store h.0 in
      elim (Result-cases (delete_if_exists path_from location list delete uri store).0) [
        | inl (e, failed) ↦ rw (delete_each, failed) gone
        | inr (u, done) ↦
            rw (delete_each, done)
              (delete_each-exists uris (deleted + 1) (delete (path_from uri) store).1 h.1 ∙ gone)
      ]

  delete_candidates-exists :
      (candidates : List ObjectCleanupCandidate) (deleted : ℕ) (store : Store)
      → All (λ c. Others path_from place (candidate_uris c)) candidates
      → exists place (delete_candidates path_from location list delete candidates deleted store).1
        ≡ exists place store
  unfolding delete_candidates
  delete_candidates-exists [] deleted store h = refl
  delete_candidates-exists (candidate ∷ candidates) deleted store h =
      let one =
        delete_each path_from location list delete (candidate_uris candidate) deleted store in
      let gone : exists place one.1 ≡ exists place store =
        delete_each-exists (candidate_uris candidate) deleted store h.0 in
      elim (Result-cases one.0) [
        | inl (e, failed) ↦ rw (delete_candidates, failed) gone
        | inr (n, done) ↦
            rw (delete_candidates, done) (delete_candidates-exists candidates n one.1 h.1 ∙ gone)
      ]

  mark_deleted-exists :
      (candidates : List ObjectCleanupCandidate) (now : ℕ) (table : List TraceSegment)
      (done : Result CleanupError ℕ × Store)
      → exists place (mark_deleted path_from location list delete candidates now table done).1
        ≡ exists place done.1
  mark_deleted-exists candidates now table (err e, store) = refl
  mark_deleted-exists candidates now table (ok n, store) = refl

  cleanup_with_grace-exists :
      (now : ℕ) (dry_run : Bool) (store : Store) (table : List TraceSegment) (grace : ℕ)
      → All
          (λ c. Others path_from place (candidate_uris c))
          (load_compacted_cleanup_candidates now grace table)
      → exists place
          (cleanup_with_grace path_from location list delete now dry_run store table (ok grace)).1
        ≡ exists place store
  cleanup_with_grace-exists now dry_run store table grace h =
      let candidates = load_compacted_cleanup_candidates now grace table in
      elim (Bool-cases (dry_run || is_empty_list candidates)) [
        | inl idle ↦ rw idle refl
        | inr busy ↦ rw busy (
            mark_deleted-exists candidates now table
              (delete_candidates path_from location list delete candidates 0 store)
            ∙ delete_candidates-exists candidates 0 store h)
      ]

  count_orphans-exists :
      (candidates : List OrphanObjectCandidate) (done : Result CleanupError ℕ × Store)
      → exists place (count_orphans path_from location list delete candidates done).1
        ≡ exists place done.1
  count_orphans-exists candidates (err e, store) = refl
  count_orphans-exists candidates (ok n, store) = refl

module _ {ObjectPath Store : Type 0} (path_from : Text → ObjectPath) (location : ObjectPath → Text)
    (list : Store → Result ObjectStoreError (List (ObjectPath × ℕ)))
    (delete : ObjectPath → Store → Result ObjectStoreError (Unit {0}) × Store)
    (exists : ObjectPath → Store → Bool)
    (delete_other : (p q : ObjectPath) (store : Store)
      → (p ≡ q → ⊥)
      → exists q (delete p store).1 ≡ exists q store)
    (path_from_location : (p q : ObjectPath)
      → path_from (location p) ≡ path_from (location q)
      → p ≡ q)
    (named : ObjectPath) (referenced : List Text)
    (row_names : one_of referenced (location named) ≡ true) where
  apart :
      (path : ObjectPath)
      → not (one_of referenced (location path)) ≡ true
      → path_from (location path) ≡ path_from (location named)
      → ⊥
  apart path orphan same =
      let e : path ≡ named = path_from_location path named same in
      clash (rw (sym e) at row_names) (is_false (one_of referenced (location path)) orphan)
    where
      clash : {b : Bool} → b ≡ true → b ≡ false → ⊥
      clash e f = cc

  unreferenced-Others :
      (objects : List (ObjectPath × ℕ))
      → All
          (λ c. path_from c.uri ≡ path_from (location named) → ⊥)
          (unreferenced referenced (printed path_from location list delete objects))
  unreferenced-Others [] = tt
  unreferenced-Others ((path, bytes) ∷ objects) =
      elim (Bool-cases (not (one_of referenced (location path)))) [
        | inl orphan ↦ rw orphan (apart path orphan, unreferenced-Others objects)
        | inr kept ↦ rw kept (unreferenced-Others objects)
      ]

  cleanup_listed-exists :
      (dry_run : Bool) (store : Store) (objects : Result ObjectStoreError (List (ObjectPath × ℕ)))
      → exists
          (path_from (location named))
          (cleanup_listed path_from location list delete dry_run referenced store objects).1
        ≡ exists (path_from (location named)) store
  cleanup_listed-exists dry_run store (err e) = refl
  cleanup_listed-exists true store (ok objects) = refl
  cleanup_listed-exists false store (ok objects) =
      let place = path_from (location named) in
      let orphans = unreferenced referenced (printed path_from location list delete objects) in
      let candidates = sort_by_uri orphans in
      count_orphans-exists path_from location list delete exists delete_other place candidates
        (delete_each path_from location list delete (orphan_uris candidates) 0 store)
      ∙ delete_each-exists path_from location list delete exists delete_other place
          (orphan_uris candidates) 0 store
          (orphan_uris-Others path_from place candidates (
            sort_by_uri-All (λ c. path_from c.uri ≡ place → ⊥) orphans
              (unreferenced-Others objects)))

-- Let `delete` of one path leave the objects at all others as they are, and let `Path::from` take the
-- printed locations of different paths to different paths. Let a row that is not marked as deleted
-- name, for the segment or its search index, a URI that is the location of some path, so that it has
-- no empty segment. Then the object that was stored under this URI is there after
-- `cleanup_orphaned_objects` exactly if it was before, whether the run succeeds or fails.
pub cleanup_orphaned_objects-exists :
    {ObjectPath Store : Type 0} (path_from : Text → ObjectPath) (location : ObjectPath → Text)
    (list : Store → Result ObjectStoreError (List (ObjectPath × ℕ)))
    (delete : ObjectPath → Store → Result ObjectStoreError (Unit {0}) × Store)
    (exists : ObjectPath → Store → Bool)
    (delete_other : (p q : ObjectPath) (store : Store)
      → (p ≡ q → ⊥)
      → exists q (delete p store).1 ≡ exists q store)
    (path_from_location : (p q : ObjectPath)
      → path_from (location p) ≡ path_from (location q)
      → p ≡ q)
    (path : ObjectPath) (dry_run : Bool) (store : Store) (table : List TraceSegment) (i : ℕ)
    (row : TraceSegment)
    → get_elem? table i ≡ some row
    → is_none row.object_deleted_at_unix_nano ≡ true
    → Names (location path) row
    → exists
        (path_from (location path))
        (cleanup_orphaned_objects path_from location list delete dry_run store table).1
      ≡ exists (path_from (location path)) store
unfolding cleanup_orphaned_objects
cleanup_orphaned_objects-exists path_from location list delete exists delete_other
      path_from_location path dry_run store table i row place live names =
    cleanup_listed-exists path_from location list delete exists delete_other path_from_location path
      (load_referenced_object_uris table)
      (load_referenced_object_uris-Names (location path) table i row place live names) dry_run store
      (list store)

-- Let `delete` of one path leave the objects at all others as they are. An object whose path
-- `Path::from` does not give for any URI of a candidate, that is of a compacted row whose grace
-- period is over and whose objects are not marked as deleted, is there after
-- `cleanup_compacted_objects_at` exactly if it was before, whether the run succeeds or fails.
pub cleanup_compacted_objects_at-exists :
    {ObjectPath Store : Type 0} (path_from : Text → ObjectPath) (location : ObjectPath → Text)
    (list : Store → Result ObjectStoreError (List (ObjectPath × ℕ)))
    (delete : ObjectPath → Store → Result ObjectStoreError (Unit {0}) × Store)
    (exists : ObjectPath → Store → Bool)
    (delete_other : (p q : ObjectPath) (store : Store)
      → (p ≡ q → ⊥)
      → exists q (delete p store).1 ≡ exists q store)
    (place : ObjectPath) (now grace : ℕ) (dry_run : Bool) (store : Store)
    (table : List TraceSegment)
    → All
        (λ c. Others path_from place (candidate_uris c))
        (load_compacted_cleanup_candidates now grace table)
    → exists place
        (cleanup_compacted_objects_at path_from location list delete now grace dry_run store
          table).1
      ≡ exists place store
unfolding cleanup_compacted_objects_at duration_nanos
cleanup_compacted_objects_at-exists path_from location list delete exists delete_other place now
      grace dry_run store table h =
    elim (Bool-cases (leb (2 ^ 63) grace)) [
      | inl long ↦ rw long refl
      | inr short ↦ rw short (
          cleanup_with_grace-exists path_from location list delete exists delete_other place now
            dry_run store table grace h)
    ]
