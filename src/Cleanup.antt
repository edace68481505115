-- ===== src/Cleanup.antt =====
-- src/query/cleanup.rs: the removal of objects that compaction replaced, and of objects that no row
-- names. The object store is a parameter, with its `list` and `delete`. The table trace_segments is
-- its rows in the order of their ids, and its statements succeed. Times are nanoseconds since the
-- epoch and not negative, so that `now - grace` stays in an i64; `t <= now - grace` is written
-- `t + grace <= now`.
pub mod Named
pub mod Orphans
pub mod Run
pub mod Safety
pub mod Settled
use kevindb.Base.{
  ℕ, ◌+◌, ◌-◌, ◌^◌, ◌%◌, Bool, true, false, ◌&&◌, ◌||◌, not, Option, none, some, List, [], ◌∷◌,
  ◌++◌, min, leb, ◌==◌, if◌then◌else◌,
}
use kevindb.Base.Text.{Text}
use kevindb.Base.Result.{Result, ok, err}
use kevindb.Search.Terms.{leb_bytes}
use kevindb.Search.Query.{one_of}

-- A row of trace_segments, as far as the statements read it.
pub record TraceSegment : Type 0 where
  pub id : ℕ
  pub uri : Text
  pub total_bytes : ℕ
  pub search_index_uri : Option Text
  pub search_index_bytes : ℕ
  pub compacted : Bool
  pub compacted_at_unix_nano : Option ℕ
  pub object_deleted_at_unix_nano : Option ℕ

pub record ObjectCleanupCandidate : Type 0 where
  pub trace_segment_id : ℕ
  pub segment_uri : Text
  pub segment_bytes : ℕ
  pub search_index_uri : Option Text
  pub search_index_bytes : ℕ

pub record ObjectCleanupReceipt : Type 0 where
  pub dry_run : Bool
  pub candidates : List ObjectCleanupCandidate
  pub reclaimable_bytes : ℕ
  pub deleted_objects : ℕ

pub record OrphanObjectCandidate : Type 0 where
  pub uri : Text
  pub bytes : ℕ

pub record OrphanObjectCleanupReceipt : Type 0 where
  pub dry_run : Bool
  pub candidates : List OrphanObjectCandidate
  pub reclaimable_bytes : ℕ
  pub deleted_objects : ℕ

-- `object_store::Error`: `NotFound`, and the others.
pub data ObjectStoreError : Type 0 where
  not_found other_failure : ObjectStoreError

pub data CleanupError : Type 0 where
  grace_too_long delete_failed list_failed : CleanupError

abbrev pub is_none : {A : Type 0} → Option A → Bool
is_none none = true
is_none (some a) = false

abbrev coalesce_zero : Option ℕ → ℕ
coalesce_zero none = 0
coalesce_zero (some n) = n

unfoldable pub duration_nanos : ℕ → Result CleanupError ℕ
duration_nanos duration = if leb (2 ^ 63) duration then err grace_too_long else ok duration

-- The WHERE of `load_compacted_cleanup_candidates`.
abbrev pub is_candidate : ℕ → ℕ → TraceSegment → Bool
is_candidate now grace row =
    row.compacted
    && is_none row.object_deleted_at_unix_nano
    && leb (coalesce_zero row.compacted_at_unix_nano + grace) now

abbrev pub to_candidate : TraceSegment → ObjectCleanupCandidate
to_candidate row = record {
  trace_segment_id = row.id;
  segment_uri = row.uri;
  segment_bytes = row.total_bytes;
  search_index_uri = row.search_index_uri;
  search_index_bytes = row.search_index_bytes;
}

unfoldable pub load_compacted_cleanup_candidates :
    ℕ → ℕ → List TraceSegment → List ObjectCleanupCandidate
load_compacted_cleanup_candidates now grace [] = []
load_compacted_cleanup_candidates now grace (row ∷ table) =
    let rest = load_compacted_cleanup_candidates now grace table in
    if is_candidate now grace row then to_candidate row ∷ rest else rest

-- `id IN ({ids})`
abbrev pub is_marked : List ObjectCleanupCandidate → ℕ → Bool
is_marked [] id = false
is_marked (candidate ∷ candidates) id =
    (candidate.trace_segment_id == id) || is_marked candidates id

unfoldable pub mark_compacted_objects_cleaned :
    List ObjectCleanupCandidate → ℕ → List TraceSegment → List TraceSegment
mark_compacted_objects_cleaned candidates now [] = []
mark_compacted_objects_cleaned candidates now (row ∷ table) =
    (if is_marked candidates row.id
      then record row { object_deleted_at_unix_nano = some now }
      else row)
    ∷ mark_compacted_objects_cleaned candidates now table

-- `saturating_add` on i64, of sizes that are not negative.
unfoldable pub candidate_bytes : ObjectCleanupCandidate → ℕ
candidate_bytes candidate =
    min (candidate.segment_bytes + candidate.search_index_bytes) (2 ^ 63 - 1)

-- The 64 bits of the sum.
abbrev sum_bytes : List ObjectCleanupCandidate → ℕ
sum_bytes [] = 0
sum_bytes (candidate ∷ candidates) = (candidate_bytes candidate + sum_bytes candidates) % 2 ^ 64

abbrev pub is_empty_list {ℓ} : {A : Type ℓ} → List A → Bool
is_empty_list [] = true
is_empty_list (x ∷ xs) = false

abbrev pub cleanup_receipt : Bool → List ObjectCleanupCandidate → ℕ → ObjectCleanupReceipt
cleanup_receipt dry_run candidates deleted = record {
  dry_run = dry_run;
  candidates = candidates;
  reclaimable_bytes = sum_bytes candidates;
  deleted_objects = deleted;
}

abbrev pub index_uris : Option Text → List Text
index_uris none = []
index_uris (some uri) = uri ∷ []

-- The objects of a candidate, in the order of their removal.
abbrev pub candidate_uris : ObjectCleanupCandidate → List Text
candidate_uris candidate = candidate.segment_uri ∷ index_uris candidate.search_index_uri

-- The two queries of `load_referenced_object_uris`.
abbrev pub segment_rows : List TraceSegment → List Text
segment_rows [] = []
segment_rows (row ∷ table) =
    let rest = segment_rows table in
    if is_none row.object_deleted_at_unix_nano then row.uri ∷ rest else rest

abbrev pub search_index_rows : List TraceSegment → List Text
search_index_rows [] = []
search_index_rows (row ∷ table) =
    let rest = search_index_rows table in
    if is_none row.object_deleted_at_unix_nano
    then index_uris row.search_index_uri ++ rest
    else rest

unfoldable pub load_referenced_object_uris : List TraceSegment → List Text
load_referenced_object_uris table = segment_rows table ++ search_index_rows table

abbrev pub unreferenced : List Text → List (Text × ℕ) → List OrphanObjectCandidate
unreferenced referenced [] = []
unreferenced referenced ((uri, bytes) ∷ objects) =
    let rest = unreferenced referenced objects in
    if not (one_of referenced uri) then record { uri = uri; bytes = bytes } ∷ rest else rest

-- `sort_by(|left, right| left.uri.cmp(&right.uri))`, stable
abbrev pub insert_by_uri :
    OrphanObjectCandidate → List OrphanObjectCandidate → List OrphanObjectCandidate
insert_by_uri candidate [] = candidate ∷ []
insert_by_uri candidate (next ∷ sorted) =
    let rest = insert_by_uri candidate sorted in
    if leb_bytes candidate.uri next.uri then candidate ∷ next ∷ sorted else next ∷ rest

abbrev pub sort_by_uri : List OrphanObjectCandidate → List OrphanObjectCandidate
sort_by_uri [] = []
sort_by_uri (candidate ∷ candidates) = insert_by_uri candidate (sort_by_uri candidates)

abbrev sum_orphans : List OrphanObjectCandidate → ℕ
sum_orphans [] = 0
sum_orphans (candidate ∷ candidates) = (candidate.bytes + sum_orphans candidates) % 2 ^ 64

abbrev pub orphan_receipt : Bool → List OrphanObjectCandidate → ℕ → OrphanObjectCleanupReceipt
orphan_receipt dry_run candidates deleted = record {
  dry_run = dry_run;
  candidates = candidates;
  reclaimable_bytes = sum_orphans candidates;
  deleted_objects = deleted;
}

abbrev pub orphan_uris : List OrphanObjectCandidate → List Text
orphan_uris [] = []
orphan_uris (candidate ∷ candidates) = candidate.uri ∷ orphan_uris candidates
