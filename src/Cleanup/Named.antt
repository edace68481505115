-- ===== src/Cleanup/Named.antt =====
-- The URIs that the rows of trace_segments name.
use kevindb.Base.{
  zero, suc, ◌++◌, some, ◌⊎◌, get_elem?, ℕ, ◌≡◌, refl, inl, inr, true, List, [], ◌∷◌, Bool-cases,
}
use kevindb.Base.Text.{Text, text_eq, text_eq_refl}
use kevindb.Search.Query.{one_of}
use kevindb.Cleanup.{
  is_none, index_uris, segment_rows, search_index_rows, TraceSegment, load_referenced_object_uris,
}

-- A row names an object as its segment or as its search index.
abbrev pub Names : Text → TraceSegment → Type 0
Names v row = (row.uri ≡ v) ⊎ (row.search_index_uri ≡ some v)

one_of-append_left :
    (xs ys : List Text) (v : Text) → one_of xs v ≡ true → one_of (xs ++ ys) v ≡ true
one_of-append_left [] ys v h = cc
one_of-append_left (x ∷ xs) ys v h = elim (Bool-cases (text_eq x v)) [
  | inl here ↦ rw here refl
  | inr other ↦ rw (other, one_of-append_left xs ys v (rw other at h)) refl
]

one_of-append_right :
    (xs ys : List Text) (v : Text) → one_of ys v ≡ true → one_of (xs ++ ys) v ≡ true
one_of-append_right [] ys v h = h
one_of-append_right (x ∷ xs) ys v h = elim (Bool-cases (text_eq x v)) [
  | inl here ↦ rw here refl
  | inr other ↦ rw (other, one_of-append_right xs ys v h) refl
]

segment_rows-Names :
    (v : Text) (table : List TraceSegment) (i : ℕ) (row : TraceSegment)
    → get_elem? table i ≡ some row
    → is_none row.object_deleted_at_unix_nano ≡ true
    → row.uri ≡ v
    → one_of (segment_rows table) v ≡ true
segment_rows-Names v [] i row place live e = cc
segment_rows-Names v (first ∷ table) zero row place live e =
    let same : first ≡ row = cc in rw (same, live, e, text_eq_refl v) refl
segment_rows-Names v (first ∷ table) (suc i) row place live e =
    let later = segment_rows-Names v table i row place live e in
    elim (Bool-cases (is_none first.object_deleted_at_unix_nano)) [
      | inl kept ↦ rw kept (one_of-append_right (first.uri ∷ []) (segment_rows table) v later)
      | inr gone ↦ rw gone later
    ]

search_index_rows-Names :
    (v : Text) (table : List TraceSegment) (i : ℕ) (row : TraceSegment)
    → get_elem? table i ≡ some row
    → is_none row.object_deleted_at_unix_nano ≡ true
    → row.search_index_uri ≡ some v
    → one_of (search_index_rows table) v ≡ true
search_index_rows-Names v [] i row place live e = cc
search_index_rows-Names v (first ∷ table) zero row place live e =
    let same : first ≡ row = cc in rw (same, live, e, text_eq_refl v) refl
search_index_rows-Names v (first ∷ table) (suc i) row place live e =
    let later = search_index_rows-Names v table i row place live e in
    elim (Bool-cases (is_none first.object_deleted_at_unix_nano)) [
      | inl kept ↦ rw kept (
          one_of-append_right (index_uris first.search_index_uri) (search_index_rows table) v later)
      | inr gone ↦ rw gone later
    ]

pub load_referenced_object_uris-Names :
    (v : Text) (table : List TraceSegment) (i : ℕ) (row : TraceSegment)
    → get_elem? table i ≡ some row
    → is_none row.object_deleted_at_unix_nano ≡ true
    → Names v row
    → one_of (load_referenced_object_uris table) v ≡ true
unfolding load_referenced_object_uris
load_referenced_object_uris-Names v table i row place live (inl e) =
    one_of-append_left (segment_rows table) (search_index_rows table) v
      (segment_rows-Names v table i row place live e)
load_referenced_object_uris-Names v table i row place live (inr e) =
    one_of-append_right (segment_rows table) (search_index_rows table) v
      (search_index_rows-Names v table i row place live e)
