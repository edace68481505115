-- ===== src/Search/Ranges/Reads.antt =====
-- `read_ranges` of src/query/search.rs against the object.
use kevindb.Base.{
  ℕ, zero, suc, ◌+◌, ◌^◌, ◌≤◌, ◌<◌, ◌≡◌, refl, sym, ap, ◌∙◌, subst, arith, inl, inr, Option, none,
  some, List, [], ◌∷◌, map, length, get_elem?, slice, All, Bool-cases,
}
use kevindb.Base.Result.{Result, ok}
use kevindb.Codec.Types.{RowRange}
use kevindb.Search.Ranges.{
  CoalescedRangePlan, enumerate, sort_ranges, joins, widen, coalesce_from, coalesce_sorted,
  coalesce_ranges, ReadError, chunk_of, place_chunks, empty_chunks, read_ranges,
}
use kevindb.Search.Ranges.Merged.{
  All-sort_ranges, Any-sort_ranges, sort_ranges-InOrder, Inside, coalesce_sorted-Inside,
}
use kevindb.Search.Ranges.Placed.{
  cut_chunk_lem, enumerate-get, Any-enumerate, All-coalesce_sorted, Any-coalesce_sorted, placed,
  place_chunks-placed, length-placed, get_elem?-placed,
}

-- A range that is not empty and ends in the object.
abbrev pub InObject : List ℕ → RowRange → Type 0
InObject object range = (range.start < range.end) × (range.end ≤ length object)

abbrev pub slice_at : List ℕ → RowRange → List ℕ
slice_at object range = slice range.start range.end object

abbrev IndexedIn : List ℕ → ℕ × RowRange → Type 0
IndexedIn object x = InObject object x.1

coalesce_from-InObject :
    (object : List ℕ) (index : ℕ) (last : RowRange) (sorted : List (ℕ × RowRange))
    → InObject object last
    → All (IndexedIn object) sorted
    → All (InObject object) (coalesce_from index last sorted).0
coalesce_from-InObject object index last [] l h = (l, tt)
coalesce_from-InObject object index last (x ∷ sorted) l h = elim (Bool-cases (joins last x.1)) [
  | inl e ↦ rw e (
      coalesce_from-InObject object index (widen last x.1) sorted
        (omega (arith, l.0), omega (arith, l.1, h.0.1)) h.1)
  | inr e ↦ rw e (l, coalesce_from-InObject object (index + 1) x.1 sorted h.0 h.1)
]

coalesce_sorted-InObject :
    (object : List ℕ) (sorted : List (ℕ × RowRange))
    → All (IndexedIn object) sorted
    → All (InObject object) (coalesce_sorted sorted).0
coalesce_sorted-InObject object [] h = tt
coalesce_sorted-InObject object (x ∷ sorted) h = coalesce_from-InObject object 0 x.1 sorted h.0 h.1

enumerate-InObject :
    (object : List ℕ) (index : ℕ) (ranges : List RowRange)
    → All (InObject object) ranges
    → All (IndexedIn object) (enumerate index ranges)
enumerate-InObject object index [] h = tt
enumerate-InObject object index (range ∷ ranges) h =
    (h.0, enumerate-InObject object (index + 1) ranges h.1)

-- The value of an index: the slice of the object at its range.
abbrev slice_or_empty : List ℕ → Option RowRange → List ℕ
slice_or_empty object none = []
slice_or_empty object (some range) = slice_at object range

get_elem?-map :
    (object : List ℕ) (ranges : List RowRange) (j : ℕ)
    → j < length ranges
    → get_elem? (map (slice_at object) ranges) j ≡ some (slice_or_empty object (get_elem? ranges j))
get_elem?-map object [] j h = absurd (omega arith)
get_elem?-map object (range ∷ ranges) zero h = refl
get_elem?-map object (range ∷ ranges) (suc j) h = get_elem?-map object ranges j (omega arith)

get_elem?-map_found :
    (object : List ℕ) (ranges : List RowRange) (j : ℕ) (range : RowRange)
    → get_elem? ranges j ≡ some range
    → get_elem? (map (slice_at object) ranges) j ≡ some (slice_at object range)
get_elem?-map_found object [] j range h = cc
get_elem?-map_found object (r ∷ ranges) zero range h = ap some (ap (slice_at object) (some_inj h))
  where
    some_inj : {a b : RowRange} → some a ≡ some b → a ≡ b
    some_inj e = cc
get_elem?-map_found object (r ∷ ranges) (suc j) range h =
    get_elem?-map_found object ranges j range h

get_elem?-InObject :
    (object : List ℕ) (ranges : List RowRange) (j : ℕ) (range : RowRange)
    → All (InObject object) ranges
    → get_elem? ranges j ≡ some range
    → InObject object range
get_elem?-InObject object [] j range v h = cc
get_elem?-InObject object (r ∷ ranges) zero range v h = subst (InObject object) (some_inj h) v.0
  where
    some_inj : {a b : RowRange} → some a ≡ some b → a ≡ b
    some_inj e = cc
get_elem?-InObject object (r ∷ ranges) (suc j) range v h =
    get_elem?-InObject object ranges j range v.1 h

-- Lists of one length that agree at each index.
same_elements :
    (xs ys : List (List ℕ))
    → length xs ≡ length ys
    → ((j : ℕ) → j < length xs → get_elem? xs j ≡ get_elem? ys j)
    → xs ≡ ys
same_elements [] [] l h = refl
same_elements [] (y ∷ ys) l h = absurd (omega (arith, l))
same_elements (x ∷ xs) [] l h = absurd (omega (arith, l))
same_elements (x ∷ xs) (y ∷ ys) l h =
    let first : x ≡ y = some_inj (h 0 (omega arith)) in
    let rest : xs ≡ ys =
      same_elements xs ys (omega (arith, l)) (λ j k. h (suc j) (omega (arith, k))) in
    λ i. first i ∷ rest i
  where
    some_inj : {a b : List ℕ} → some a ≡ some b → a ≡ b
    some_inj e = cc

length-empty_chunks : (ranges : List RowRange) → length (empty_chunks ranges) ≡ length ranges
length-empty_chunks [] = refl
length-empty_chunks (range ∷ ranges) = ap suc (length-empty_chunks ranges)

length-map :
    (object : List ℕ) (ranges : List RowRange)
    → length (map (slice_at object) ranges) ≡ length ranges
length-map object [] = refl
length-map object (range ∷ ranges) = ap suc (length-map object ranges)

module _ (object : List ℕ) (ranges : List RowRange) (small : length object < 2 ^ 64) where
  abbrev value : ℕ → List ℕ
  value j = slice_or_empty object (get_elem? ranges j)

  -- What a plan says of the range that it is for.
  abbrev PlanOf : CoalescedRangePlan → Type 0
  PlanOf plan =
      (range : RowRange) × ((get_elem? ranges plan.original_index ≡ some range)
        × ((range.start ≡ plan.start) × (range.end ≡ plan.end) × (plan.start < plan.end)))

  chunk_of-value :
      (coalesced : List RowRange) (plan : CoalescedRangePlan)
      → All (InObject object) coalesced
      → Inside 0 coalesced plan
      → PlanOf plan
      → chunk_of plan
          (get_elem? (map (slice_at object) coalesced) plan.coalesced_index)
          (get_elem? coalesced plan.coalesced_index)
        ≡ ok (value plan.original_index)
  chunk_of-value coalesced plan valid inside (range, (found, (s, e, long))) =
      let base = inside.base in
      let at : plan.coalesced_index ≡ inside.offset = omega (arith, inside.at) in
      let base_in = get_elem?-InObject object coalesced inside.offset base valid inside.found in
      ap
        (λ k. chunk_of plan (get_elem? (map (slice_at object) coalesced) k) (get_elem? coalesced k))
        at
      ∙ ap (λ parent. chunk_of plan parent (get_elem? coalesced inside.offset))
          (get_elem?-map_found object coalesced inside.offset base inside.found)
      ∙ ap (chunk_of plan (some (slice_at object base))) inside.found
      ∙ cut_chunk_lem object base plan.start plan.end small inside.from_start (omega (arith, long))
          inside.to_end base_in.1
      ∙ ap ok (sym (ap (slice_or_empty object) found ∙ (λ i. slice (s i) (e i) object)))

  chunks_of-value :
      (coalesced : List RowRange) (plans : List CoalescedRangePlan)
      → All (InObject object) coalesced
      → All (Inside 0 coalesced) plans
      → All PlanOf plans
      → All
          (λ plan.
            chunk_of plan
              (get_elem? (map (slice_at object) coalesced) plan.coalesced_index)
              (get_elem? coalesced plan.coalesced_index)
            ≡ ok (value plan.original_index))
          plans
  chunks_of-value coalesced [] valid inside h = tt
  chunks_of-value coalesced (plan ∷ plans) valid inside h = (
    chunk_of-value coalesced plan valid inside.0 h.0,
    chunks_of-value coalesced plans valid inside.1 h.1,
  )

  module _ (valid : All (InObject object) ranges) where
    abbrev sorted : List (ℕ × RowRange)
    sorted = sort_ranges (enumerate 0 ranges)

    plans-PlanOf : All PlanOf (coalesce_sorted sorted).1
    plans-PlanOf =
        All-coalesce_sorted PlanOf
          (λ x. (k : ℕ) × ((x.0 ≡ 0 + k) × (get_elem? ranges k ≡ some x.1)))
          (λ i x (k, (e, found)). (
            x.1,
            (
              ap (get_elem? ranges) (omega (arith, e)) ∙ found,
              (refl, refl, (get_elem?-InObject object ranges k x.1 valid found).0),
            ),
          ))
          sorted (All-sort_ranges _ (enumerate 0 ranges) (enumerate-get 0 ranges))

    placed-all :
        placed value (coalesce_sorted sorted).1 (empty_chunks ranges) ≡ map (slice_at object) ranges
    placed-all =
        let plans = (coalesce_sorted sorted).1 in
        let chunks = empty_chunks ranges in
        let size = length-placed value plans chunks in
        same_elements (placed value plans chunks) (map (slice_at object) ranges)
          (size ∙ length-empty_chunks ranges ∙ sym (length-map object ranges))
          (λ j h.
            get_elem?-placed value plans chunks j (omega (arith, size, h)) (
              inr (
                Any-coalesce_sorted (λ plan. plan.original_index ≡ j) (λ x. x.0 ≡ 0 + j)
                  (λ i x e. omega (arith, e)) sorted
                  (Any-sort_ranges (λ x. x.0 ≡ 0 + j) (enumerate 0 ranges)
                    (Any-enumerate 0 j ranges
                      (omega (arith, size, h, length-empty_chunks ranges))))))
            ∙ sym (
                get_elem?-map object ranges j (omega (arith, size, h, length-empty_chunks ranges))))

    coalesce_ranges-placed :
        place_chunks
          (coalesce_sorted sorted).0
          (map (slice_at object) (coalesce_sorted sorted).0)
          (coalesce_sorted sorted).1
          (empty_chunks ranges)
        ≡ ok (map (slice_at object) ranges)
    coalesce_ranges-placed =
        let merged = coalesce_sorted sorted in
        let merged_in = coalesce_sorted-InObject object sorted (
          All-sort_ranges (IndexedIn object) (enumerate 0 ranges)
            (enumerate-InObject object 0 ranges valid)) in
        place_chunks-placed value merged.0 (map (slice_at object) merged.0) merged.1
          (empty_chunks ranges)
          (chunks_of-value merged.0 merged.1 merged_in
            (coalesce_sorted-Inside sorted (sort_ranges-InOrder (enumerate 0 ranges))) plans-PlanOf)
        ∙ ap ok placed-all

-- Merging the ranges of a read does not change what is read: if the object store answers ranges of
-- the object that are not empty with the slices at them, `read_ranges` gives for each range the
-- slice of the object at it, in the order asked for. The ranges asked for are not empty and end in
-- the object, whose length is a u64.
pub read_ranges_lem :
    (get_ranges : List RowRange → Result ReadError (List (List ℕ))) (object : List ℕ)
    (ranges : List RowRange)
    → ((asked : List RowRange)
        → All (InObject object) asked
        → get_ranges asked ≡ ok (map (slice_at object) asked))
    → length object < 2 ^ 64
    → All (InObject object) ranges
    → read_ranges get_ranges ranges ≡ ok (map (slice_at object) ranges)
unfolding read_ranges coalesce_ranges
read_ranges_lem get_ranges object [] answers small valid = refl
read_ranges_lem get_ranges object (range ∷ ranges) answers small valid =
    rw
      (answers (coalesce_sorted (sort_ranges (enumerate 0 (range ∷ ranges)))).0 (
        coalesce_sorted-InObject object (sort_ranges (enumerate 0 (range ∷ ranges))) (
          All-sort_ranges (IndexedIn object) (enumerate 0 (range ∷ ranges))
            (enumerate-InObject object 0 (range ∷ ranges) valid))))
      (coalesce_ranges-placed object (range ∷ ranges) small valid)
