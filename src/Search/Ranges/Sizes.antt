-- ===== src/Search/Ranges/Sizes.antt =====
-- How large the merged ranges of src/query/search.rs get.
use kevindb.Base.{
  min, ◌^◌, ℕ, ◌+◌, ◌-◌, ◌≤◌, max, ◌≡◌, refl, subst, arith, inl, inr, ◌⊎◌, true, false, List, [],
  ◌∷◌, leb, leb→le, All, All-imp, Any, Bool-cases, and_right,
}
use kevindb.Codec.Types.{RowRange}
use kevindb.Search.Ranges.{
  enumerate, sort_ranges, joins, widen, coalesce_from, coalesce_sorted, coalesce_ranges,
  coalesce_max_bytes, coalesce_gap_bytes,
}
use kevindb.Search.Ranges.Merged.{All-sort_ranges}

-- At most 16 MiB, or one of the ranges as it is.
abbrev pub SmallOrAsked : List RowRange → RowRange → Type 0
SmallOrAsked ranges range =
    (range.end - range.start ≤ coalesce_max_bytes) ⊎ Any (λ r. r ≡ range) ranges

-- The second guard of the merging.
joins-short :
    (last range : RowRange) → joins last range ≡ true → range.end - last.start ≤ coalesce_max_bytes
joins-short last range joined = leb→le (range.end - last.start) coalesce_max_bytes (
    and_right (leb range.start (min (last.end + coalesce_gap_bytes) (2 ^ 64 - 1)))
      (leb (range.end - last.start) coalesce_max_bytes) joined)

widen-SmallOrAsked :
    (ranges : List RowRange) (last range : RowRange)
    → joins last range ≡ true
    → SmallOrAsked ranges last
    → SmallOrAsked ranges (widen last range)
widen-SmallOrAsked ranges last range joined (inl small) =
    let short = joins-short last range joined in inl (omega (arith, short, small))
widen-SmallOrAsked ranges last range joined (inr asked) =
    let short = joins-short last range joined in
    elim (Bool-cases (leb (last.end - last.start) coalesce_max_bytes)) [
      | inl fits ↦
          let small = leb→le (last.end - last.start) coalesce_max_bytes fits in
          inl (omega (arith, short, small))
      | inr large ↦
          let same : last.end ≡ max last.end range.end = inside last range short large in
          let it : last ≡ widen last range = λ i. record { start = last.start; end = same i } in
          inr (subst (λ r. Any (λ x. x ≡ r) ranges) it asked)
    ]
  where
    inside :
        (last range : RowRange)
        → range.end - last.start ≤ coalesce_max_bytes
        → leb (last.end - last.start) coalesce_max_bytes ≡ false
        → last.end ≡ max last.end range.end
    inside last range short large = ground arith

coalesce_from-SmallOrAsked :
    (ranges : List RowRange) (index : ℕ) (last : RowRange) (sorted : List (ℕ × RowRange))
    → SmallOrAsked ranges last
    → All (λ x. Any (λ r. r ≡ x.1) ranges) sorted
    → All (SmallOrAsked ranges) (coalesce_from index last sorted).0
coalesce_from-SmallOrAsked ranges index last [] s h = (s, tt)
coalesce_from-SmallOrAsked ranges index last (x ∷ sorted) s h = elim (Bool-cases (joins last x.1)) [
  | inl e ↦ rw e (
      coalesce_from-SmallOrAsked ranges index (widen last x.1) sorted
        (widen-SmallOrAsked ranges last x.1 e s) h.1)
  | inr e ↦ rw e (s, coalesce_from-SmallOrAsked ranges (index + 1) x.1 sorted (inr h.0) h.1)
]

enumerate-asked :
    (index : ℕ) (ranges : List RowRange)
    → All (λ x. Any (λ r. r ≡ x.1) ranges) (enumerate index ranges)
enumerate-asked index [] = tt
enumerate-asked index (range ∷ ranges) = (
  inl refl,
  All-imp (λ x. Any (λ r. r ≡ x.1) ranges) (λ x. Any (λ r. r ≡ x.1) (range ∷ ranges))
      (enumerate (index + 1) ranges) (λ x later. inr later) (enumerate-asked (index + 1) ranges),
)

coalesce_sorted-SmallOrAsked :
    (ranges : List RowRange) (sorted : List (ℕ × RowRange))
    → All (λ x. Any (λ r. r ≡ x.1) ranges) sorted
    → All (SmallOrAsked ranges) (coalesce_sorted sorted).0
coalesce_sorted-SmallOrAsked ranges [] h = tt
coalesce_sorted-SmallOrAsked ranges (x ∷ sorted) h =
    coalesce_from-SmallOrAsked ranges 0 x.1 sorted (inr h.0) h.1

-- Merging makes no large reads: a merged range has at most 16 MiB, or it is one of the ranges asked
-- for as it was.
pub coalesce_ranges-SmallOrAsked :
    (ranges : List RowRange) → All (SmallOrAsked ranges) (coalesce_ranges ranges).0
unfolding coalesce_ranges
coalesce_ranges-SmallOrAsked ranges =
    coalesce_sorted-SmallOrAsked ranges (sort_ranges (enumerate 0 ranges)) (
      All-sort_ranges (λ x. Any (λ r. r ≡ x.1) ranges) (enumerate 0 ranges)
        (enumerate-asked 0 ranges))
