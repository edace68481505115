-- ===== src/Search/Ranges/Merged.antt =====
-- Merged ranges and the ranges that they are merged of, in `coalesce_ranges` of src/query/search.rs.
use kevindb.Base.{
  ℕ, suc, ◌+◌, ◌≤◌, ◌≡◌, refl, arith, inl, inr, true, false, some, List, [], ◌∷◌, get_elem?, All,
  All-imp, Any, Bool-cases,
}
use kevindb.Codec.Types.{RowRange}
use kevindb.Search.Ranges.{
  CoalescedRangePlan, range_before, insert_range, sort_ranges, joins, widen, Coalesced,
  coalesce_from, coalesce_sorted,
}

abbrev pub InOrder : List (ℕ × RowRange) → Type 0
InOrder [] = Unit {0}
InOrder (x ∷ xs) = All (λ y. x.1.start ≤ y.1.start) xs × InOrder xs

module _ (P : ℕ × RowRange → Type 0) where
  pub All-insert_range :
      (x : ℕ × RowRange) (xs : List (ℕ × RowRange)) → P x → All P xs → All P (insert_range x xs)
  All-insert_range x [] p h = (p, tt)
  All-insert_range x (y ∷ xs) p h = elim (Bool-cases (range_before x.1 y.1)) [
    | inl e ↦ rw e (p, h)
    | inr e ↦ rw e (h.0, All-insert_range x xs p h.1)
  ]

  pub All-sort_ranges : (xs : List (ℕ × RowRange)) → All P xs → All P (sort_ranges xs)
  All-sort_ranges [] h = tt
  All-sort_ranges (x ∷ xs) h = All-insert_range x (sort_ranges xs) h.0 (All-sort_ranges xs h.1)

  Any-insert_range :
      (x : ℕ × RowRange) (xs : List (ℕ × RowRange)) → Any P (x ∷ xs) → Any P (insert_range x xs)
  Any-insert_range x [] h = h
  Any-insert_range x (y ∷ xs) h = elim (Bool-cases (range_before x.1 y.1)) [
    | inl e ↦ rw e h
    | inr e ↦ rw e (elim h [
      | inl here ↦ inr (Any-insert_range x xs (inl here))
      | inr (inl second) ↦ inl second
      | inr (inr rest) ↦ inr (Any-insert_range x xs (inr rest))
    ])
  ]

  pub Any-sort_ranges : (xs : List (ℕ × RowRange)) → Any P xs → Any P (sort_ranges xs)
  Any-sort_ranges [] h = h
  Any-sort_ranges (x ∷ xs) (inl here) = Any-insert_range x (sort_ranges xs) (inl here)
  Any-sort_ranges (x ∷ xs) (inr rest) =
      Any-insert_range x (sort_ranges xs) (inr (Any-sort_ranges xs rest))

range_before-le : (a b : RowRange) → range_before a b ≡ true → a.start ≤ b.start
range_before-le a b h = ground arith

range_before-ge : (a b : RowRange) → range_before a b ≡ false → b.start ≤ a.start
range_before-ge a b h = ground arith

insert_range-InOrder :
    (x : ℕ × RowRange) (xs : List (ℕ × RowRange)) → InOrder xs → InOrder (insert_range x xs)
insert_range-InOrder x [] h = (tt, tt)
insert_range-InOrder x (y ∷ xs) h = elim (Bool-cases (range_before x.1 y.1)) [
  | inl e ↦
      let first = range_before-le x.1 y.1 e in
      rw e (
        (
          first,
          All-imp (λ z. y.1.start ≤ z.1.start) (λ z. x.1.start ≤ z.1.start) xs
              (λ z k. omega (arith, k, first)) h.0,
        ),
        h,
      )
  | inr e ↦ rw e (
    All-insert_range (λ z. y.1.start ≤ z.1.start) x xs (range_before-ge x.1 y.1 e) h.0,
    insert_range-InOrder x xs h.1,
  )
]

pub sort_ranges-InOrder : (xs : List (ℕ × RowRange)) → InOrder (sort_ranges xs)
sort_ranges-InOrder [] = tt
sort_ranges-InOrder (x ∷ xs) = insert_range-InOrder x (sort_ranges xs) (sort_ranges-InOrder xs)

-- A plan's range lies in the merged range of its index; the list of merged ranges starts at `index`.
pub record Inside (index : ℕ) (coalesced : List RowRange) (plan : CoalescedRangePlan) : Type 0 where
  pub offset : ℕ
  pub base : RowRange
  pub at : plan.coalesced_index ≡ index + offset
  pub found : get_elem? coalesced offset ≡ some base
  pub from_start : base.start ≤ plan.start
  pub to_end : plan.end ≤ base.end

pub record Merges (index : ℕ) (last : RowRange) (result : Coalesced) : Type 0 where
  pub head : RowRange
  pub first : get_elem? result.0 0 ≡ some head
  pub same_start : head.start ≡ last.start
  pub wider : last.end ≤ head.end
  pub inside : All (Inside index result.0) result.1

Inside-later :
    (index : ℕ) (last : RowRange) (coalesced : List RowRange) (plan : CoalescedRangePlan)
    → Inside (index + 1) coalesced plan
    → Inside index (last ∷ coalesced) plan
Inside-later index last coalesced plan i = record {
  offset = suc i.offset;
  base = i.base;
  at = omega (arith, i.at);
  found = i.found;
  from_start = i.from_start;
  to_end = i.to_end;
}

pub coalesce_from-Merges :
    (index : ℕ) (last : RowRange) (sorted : List (ℕ × RowRange))
    → All (λ y. last.start ≤ y.1.start) sorted
    → InOrder sorted
    → Merges index last (coalesce_from index last sorted)
coalesce_from-Merges index last [] low order = record {
  head = last;
  first = refl;
  same_start = refl;
  wider = omega arith;
  inside = tt;
}
coalesce_from-Merges index last (x ∷ sorted) low order = elim (Bool-cases (joins last x.1)) [
  | inl e ↦
      let rest = coalesce_from-Merges index (widen last x.1) sorted low.1 order.1 in
      rw e (record {
        head = rest.head;
        first = rest.first;
        same_start = rest.same_start;
        wider = omega (arith, rest.wider);
        inside = (
          record {
            offset = 0;
            base = rest.head;
            at = omega arith;
            found = rest.first;
            from_start = omega (arith, rest.same_start, low.0);
            to_end = omega (arith, rest.wider);
          },
          rest.inside,
        );
      })
  | inr e ↦
      let rest = coalesce_from-Merges (index + 1) x.1 sorted order.0 order.1 in
      let coalesced = (coalesce_from (index + 1) x.1 sorted).0 in
      rw e (record {
        head = last;
        first = refl;
        same_start = refl;
        wider = omega arith;
        inside = (
          record {
            offset = 1;
            base = rest.head;
            at = omega arith;
            found = rest.first;
            from_start = omega (arith, rest.same_start);
            to_end = rest.wider;
          },
          All-imp (Inside (index + 1) coalesced) (Inside index (last ∷ coalesced))
              (coalesce_from (index + 1) x.1 sorted).1 (Inside-later index last coalesced)
              rest.inside,
        );
      })
]

-- Every range is in a merged one.
pub coalesce_sorted-Inside :
    (sorted : List (ℕ × RowRange))
    → InOrder sorted
    → All (Inside 0 (coalesce_sorted sorted).0) (coalesce_sorted sorted).1
coalesce_sorted-Inside [] order = tt
coalesce_sorted-Inside (x ∷ sorted) order =
    let rest = coalesce_from-Merges 0 x.1 sorted order.0 order.1 in
    (
      record {
        offset = 0;
        base = rest.head;
        at = refl;
        found = rest.first;
        from_start = omega (arith, rest.same_start);
        to_end = rest.wider;
      },
      rest.inside,
    )
