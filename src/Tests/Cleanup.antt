-- ===== src/Tests/Cleanup.antt =====
-- The cleanups on a store that is a list of paths. A path is its text, and `path_from` encodes the
-- percent signs of a text that has no empty segment.
use kevindb.Base.{
  ℕ, ◌≡◌, refl, Bool, true, false, none, some, List, [], ◌∷◌, if◌then◌else◌, Bool-cases, inl, inr,
  ◌==◌, ==_iff, ◌⊎◌, sym, ◌∙◌,
}
use kevindb.Base.Text.{Text, text, text_eq, text_eq→eq}
use kevindb.Base.Result.{Result, ok, err}
use kevindb.Search.Query.{one_of}
use kevindb.Cleanup.{
  TraceSegment, ObjectStoreError, not_found, OrphanObjectCleanupReceipt,
  load_compacted_cleanup_candidates,
}
use kevindb.Cleanup.Run.{cleanup_orphaned_objects, cleanup_compacted_objects_at}
use kevindb.Cleanup.Safety.{cleanup_orphaned_objects-exists, cleanup_compacted_objects_at-exists}
use kevindb.Cleanup.Settled.{Settles, cleanup_compacted_objects_at-Settles}

abbrev remove : Text → List Text → List Text
remove u [] = []
remove u (w ∷ ws) = let rest = remove u ws in if text_eq w u then rest else w ∷ rest

abbrev delete : Text → List Text → Result ObjectStoreError (Unit {0}) × List Text
delete u store = (if one_of store u then ok tt else err not_found, remove u store)

-- `%25` in place of `%`
abbrev path_from : Text → Text
path_from [] = []
path_from (byte ∷ bytes) =
    let rest = path_from bytes in if byte == 37 then 37 ∷ 50 ∷ 53 ∷ rest else byte ∷ rest

abbrev location : Text → Text
location path = path

clash : {b : Bool} → b ≡ true → b ≡ false → ⊥
clash e f = cc

-- The text's first byte, and what is behind it.
path_from-cons :
    (byte : ℕ) (bytes : Text)
    → ((byte ≡ 37) × (path_from (byte ∷ bytes) ≡ 37 ∷ 50 ∷ 53 ∷ path_from bytes))
      ⊎ ((byte ≡ 37 → ⊥) × (path_from (byte ∷ bytes) ≡ byte ∷ path_from bytes))
path_from-cons byte bytes = elim (Bool-cases (byte == 37)) [
  | inl percent ↦ inl ((==_iff byte 37).0 percent, rw percent refl)
  | inr plain ↦ inr (λ e. clash ((==_iff byte 37).1 e) plain, rw plain refl)
]

path_from_location : (p q : Text) → path_from (location p) ≡ path_from (location q) → p ≡ q
path_from_location [] [] e = refl
path_from_location [] (y ∷ q) e = elim (path_from-cons y q) [ inl h ↦ cc | inr h ↦ cc ]
path_from_location (x ∷ p) [] e = elim (path_from-cons x p) [ inl h ↦ cc | inr h ↦ cc ]
path_from_location (x ∷ p) (y ∷ q) e = elim (path_from-cons x p) [
  | inl (xe, xs) ↦ elim (path_from-cons y q) [
    | inl (ye, ys) ↦
        let tails : path_from p ≡ path_from q = cc in
        let rest : p ≡ q = path_from_location p q tails in cc
    | inr (ye, ys) ↦ let heads : 37 ≡ y = cc in absurd (ye (sym heads))
  ]
  | inr (xe, xs) ↦ elim (path_from-cons y q) [
    | inl (ye, ys) ↦ let heads : x ≡ 37 = cc in absurd (xe heads)
    | inr (ye, ys) ↦
        let heads : x ≡ y = cc in
        let tails : path_from p ≡ path_from q = cc in
        let rest : p ≡ q = path_from_location p q tails in cc
  ]
]

abbrev listed : List Text → Result ObjectStoreError (List (Text × ℕ))
listed store = ok ((text "old", 5) ∷ (path_from (text "a%20b"), 7) ∷ [])

abbrev exists : Text → List Text → Bool
exists v store = one_of store v

delete_other :
    (p q : Text) (store : List Text) → (p ≡ q → ⊥) → exists q (delete p store).1 ≡ exists q store
delete_other p q [] h = refl
delete_other p q (w ∷ ws) h = elim (Bool-cases (text_eq w p)) [
  | inl same ↦ elim (Bool-cases (text_eq w q)) [
    | inl both ↦ absurd (h (sym (text_eq→eq w p same) ∙ text_eq→eq w q both))
    | inr other ↦ rw (same, other) (delete_other p q ws h)
  ]
  | inr differs ↦ rw (differs, delete_other p q ws h) refl
]

abbrev live_row : TraceSegment
live_row = record {
  id = 1;
  uri = text "a%20b";
  total_bytes = 7;
  search_index_uri = none;
  search_index_bytes = 0;
  compacted = false;
  compacted_at_unix_nano = none;
  object_deleted_at_unix_nano = none;
}

cleanup_orphaned_objects-exists_example :
    exists
      (path_from (text "a%20b"))
      (cleanup_orphaned_objects path_from location listed delete false
        (text "old" ∷ path_from (text "a%20b") ∷ [])
        (live_row ∷ [])).1
    ≡ true
cleanup_orphaned_objects-exists_example =
    cleanup_orphaned_objects-exists path_from location listed delete exists delete_other
      path_from_location (text "a%20b") false (text "old" ∷ path_from (text "a%20b") ∷ [])
      (live_row ∷ []) 0 live_row refl refl (inl refl)

-- The live object at `a%2520b`, whose row has `a%20b`, is one of the candidates.
abbrev false_orphans : OrphanObjectCleanupReceipt
false_orphans = record {
  dry_run = false;
  candidates =
      record { uri = text "a%2520b"; bytes = 7 } ∷ record { uri = text "old"; bytes = 5 } ∷ [];
  reclaimable_bytes = 12;
  deleted_objects = 2;
}

abbrev old_row : TraceSegment
old_row = record live_row {
  id = 2;
  uri = text "old";
  compacted = true;
  compacted_at_unix_nano = some 10;
}

old_candidate :
    load_compacted_cleanup_candidates 100 20 (live_row ∷ old_row ∷ [])
    ≡ record {
      trace_segment_id = 2;
      segment_uri = text "old";
      segment_bytes = 7;
      search_index_uri = none;
      search_index_bytes = 0;
    }
      ∷ []
unfolding load_compacted_cleanup_candidates
old_candidate = refl

cleanup_compacted_objects_at-exists_example :
    exists
      (path_from (text "a%20b"))
      (cleanup_compacted_objects_at path_from location listed delete 100 20 false
        (text "old" ∷ path_from (text "a%20b") ∷ [])
        (live_row ∷ old_row ∷ [])).1
    ≡ true
cleanup_compacted_objects_at-exists_example =
    cleanup_compacted_objects_at-exists path_from location listed delete exists delete_other
      (path_from (text "a%20b")) 100 20 false (text "old" ∷ path_from (text "a%20b") ∷ [])
      (live_row ∷ old_row ∷ []) (rw old_candidate ((λ e. cc, tt), tt))

cleanup_compacted_objects_at-Settles_example : Settles 100 20 false (live_row ∷ old_row ∷ []) (
    cleanup_compacted_objects_at path_from location listed delete 100 20 false
      (text "old" ∷ path_from (text "a%20b") ∷ [])
      (live_row ∷ old_row ∷ []))
cleanup_compacted_objects_at-Settles_example =
    cleanup_compacted_objects_at-Settles path_from location listed delete 100 20 false
      (text "old" ∷ path_from (text "a%20b") ∷ []) (live_row ∷ old_row ∷ [])
