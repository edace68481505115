-- ===== src/Search/Ranges/Placed.antt =====
-- Cutting chunks and putting them at their places, as `read_ranges` of src/query/search.rs does.
use kevindb.Base.{
  ℕ, zero, suc, ◌+◌, ◌-◌, ◌^◌, ◌≤◌, ◌<◌, ◌≡◌, ◌≢◌, refl, sym, ap, ◌∙◌, subst, arith, inl, inr, ◌⊎◌,
  some, List, [], ◌∷◌, le→leb, lt→leb, length, length-take, length-drop, drop-drop, take, drop,
  get_elem?, slice, All, All-imp, Any, Bool-cases,
}
use kevindb.Base.Result.{ok}
use kevindb.Codec.Types.{RowRange}
use kevindb.Search.Ranges.{
  CoalescedRangePlan, enumerate, joins, widen, plan_of, coalesce_from, coalesce_sorted, cut_chunk,
  chunk_of, set_chunk, place_chunks,
}

take-nil : (n : ℕ) → ◌≡◌ {A = List ℕ} (take n []) []
take-nil zero = refl
take-nil (suc n) = refl

drop-take : (k n : ℕ) (xs : List ℕ) → drop k (take n xs) ≡ take (n - k) (drop k xs)
drop-take zero n xs = ap (λ m. take m xs) (omega arith)
drop-take (suc k) zero xs =
    let nothing : 0 - suc k ≡ 0 = omega arith in sym (ap (λ m. take m (drop (suc k) xs)) nothing)
drop-take (suc k) (suc n) [] = sym (take-nil (suc n - suc k))
drop-take (suc k) (suc n) (x ∷ xs) = drop-take k n xs ∙ ap (λ m. take m (drop k xs)) (omega arith)

take-take : (m n : ℕ) (xs : List ℕ) → m ≤ n → take m (take n xs) ≡ take m xs
take-take zero n xs h = refl
take-take (suc m) zero xs h = absurd (omega arith)
take-take (suc m) (suc n) [] h = refl
take-take (suc m) (suc n) (x ∷ xs) h = ap (λ t. x ∷ t) (take-take m n xs (omega arith))

-- A slice of a slice.
slice-slice :
    (xs : List ℕ) (low high start end : ℕ)
    → low ≤ start
    → start ≤ end
    → end ≤ high
    → slice (start - low) (start - low + (end - start)) (slice low high xs) ≡ slice start end xs
slice-slice xs low high start end a b c =
    ap (λ n. take n (drop (start - low) (slice low high xs))) (omega arith)
    ∙ ap (take (end - start)) (drop-take (start - low) (high - low) (drop low xs))
    ∙ take-take (end - start) (high - low - (start - low)) (drop (start - low) (drop low xs))
        (omega arith)
    ∙ ap (take (end - start)) (drop-drop low (start - low) xs)
    ∙ ap (λ n. take (end - start) (drop n xs)) (omega arith)

length-slice :
    (xs : List ℕ) (low high : ℕ) → high ≤ length xs → length (slice low high xs) ≡ high - low
length-slice xs low high h =
    length-take (high - low) (drop low xs) (omega (arith, length-drop low xs))

pub cut_chunk_lem :
    (xs : List ℕ) (base : RowRange) (start end : ℕ)
    → length xs < 2 ^ 64
    → base.start ≤ start
    → start ≤ end
    → end ≤ base.end
    → base.end ≤ length xs
    → cut_chunk
        (slice base.start base.end xs)
        (start - base.start)
        (start - base.start + (end - start))
      ≡ ok (slice start end xs)
cut_chunk_lem xs base start end small a b c d =
    rw
      (
        lt→leb (2 ^ 64) (start - base.start + (end - start)) (omega arith),
        le→leb (start - base.start + (end - start)) (length (slice base.start base.end xs))
            (omega (arith, length-slice xs base.start base.end d)),
      )
      (ap ok (slice-slice xs base.start base.end start end a b c))

-- Each index has its range.
pub enumerate-get :
    (index : ℕ) (ranges : List RowRange)
    → All
        (λ x. (k : ℕ) × ((x.0 ≡ index + k) × (get_elem? ranges k ≡ some x.1)))
        (enumerate index ranges)
enumerate-get index [] = tt
enumerate-get index (range ∷ ranges) = (
  (0, (omega arith, refl)),
  All-imp (λ x. (k : ℕ) × ((x.0 ≡ index + 1 + k) × (get_elem? ranges k ≡ some x.1)))
      (λ x. (k : ℕ) × ((x.0 ≡ index + k) × (get_elem? (range ∷ ranges) k ≡ some x.1)))
      (enumerate (index + 1) ranges) (λ x (k, (e, found)). (suc k, (omega (arith, e), found)))
      (enumerate-get (index + 1) ranges),
)

pub Any-enumerate :
    (index j : ℕ) (ranges : List RowRange)
    → j < length ranges
    → Any (λ x. x.0 ≡ index + j) (enumerate index ranges)
Any-enumerate index j [] h = absurd (omega arith)
Any-enumerate index zero (range ∷ ranges) h = inl (omega arith)
Any-enumerate index (suc j) (range ∷ ranges) h = inr (
    subst (λ n. Any (λ x. x.0 ≡ n) (enumerate (index + 1) ranges)) (omega arith)
      (Any-enumerate (index + 1) j ranges (omega arith)))

-- The plans are those of the sorted ranges.
module _ (P : CoalescedRangePlan → Type 0) (Q : ℕ × RowRange → Type 0)
    (plans : (i : ℕ) (x : ℕ × RowRange) → Q x → P (plan_of i x)) where
  All-coalesce_from :
      (index : ℕ) (last : RowRange) (sorted : List (ℕ × RowRange))
      → All Q sorted
      → All P (coalesce_from index last sorted).1
  All-coalesce_from index last [] h = tt
  All-coalesce_from index last (x ∷ sorted) h = elim (Bool-cases (joins last x.1)) [
    | inl e ↦ rw e (plans index x h.0, All-coalesce_from index (widen last x.1) sorted h.1)
    | inr e ↦ rw e (plans (index + 1) x h.0, All-coalesce_from (index + 1) x.1 sorted h.1)
  ]

  pub All-coalesce_sorted :
      (sorted : List (ℕ × RowRange)) → All Q sorted → All P (coalesce_sorted sorted).1
  All-coalesce_sorted [] h = tt
  All-coalesce_sorted (x ∷ sorted) h = (plans 0 x h.0, All-coalesce_from 0 x.1 sorted h.1)

  Any-coalesce_from :
      (index : ℕ) (last : RowRange) (sorted : List (ℕ × RowRange))
      → Any Q sorted
      → Any P (coalesce_from index last sorted).1
  Any-coalesce_from index last [] h = absurd h
  Any-coalesce_from index last (x ∷ sorted) h = elim (Bool-cases (joins last x.1)) [
    | inl e ↦ rw e (elim h [
      | inl here ↦ inl (plans index x here)
      | inr rest ↦ inr (Any-coalesce_from index (widen last x.1) sorted rest)
    ])
    | inr e ↦ rw e (elim h [
      | inl here ↦ inl (plans (index + 1) x here)
      | inr rest ↦ inr (Any-coalesce_from (index + 1) x.1 sorted rest)
    ])
  ]

  pub Any-coalesce_sorted :
      (sorted : List (ℕ × RowRange)) → Any Q sorted → Any P (coalesce_sorted sorted).1
  Any-coalesce_sorted [] h = absurd h
  Any-coalesce_sorted (x ∷ sorted) (inl here) = inl (plans 0 x here)
  Any-coalesce_sorted (x ∷ sorted) (inr rest) = inr (Any-coalesce_from 0 x.1 sorted rest)

-- Chunks set at their indices.
length-set_chunk :
    (i : ℕ) (c : List ℕ) (chunks : List (List ℕ)) → length (set_chunk i c chunks) ≡ length chunks
length-set_chunk i c [] = refl
length-set_chunk zero c (old ∷ chunks) = refl
length-set_chunk (suc i) c (old ∷ chunks) = ap suc (length-set_chunk i c chunks)

get_elem?-set_chunk :
    (i j : ℕ) (c : List ℕ) (chunks : List (List ℕ))
    → j < length chunks
    → ((i ≡ j) × (get_elem? (set_chunk i c chunks) j ≡ some c))
      ⊎ ((i ≢ j) × (get_elem? (set_chunk i c chunks) j ≡ get_elem? chunks j))
get_elem?-set_chunk i j c [] h = absurd (omega arith)
get_elem?-set_chunk zero zero c (old ∷ chunks) h = inl (refl, refl)
get_elem?-set_chunk zero (suc j) c (old ∷ chunks) h = inr ((λ e. omega (arith, e)), refl)
get_elem?-set_chunk (suc i) zero c (old ∷ chunks) h = inr ((λ e. omega (arith, e)), refl)
get_elem?-set_chunk (suc i) (suc j) c (old ∷ chunks) h =
    elim (get_elem?-set_chunk i j c chunks (omega arith)) [
      | inl (e, found) ↦ inl (ap suc e, found)
      | inr (d, found) ↦ inr ((λ e. d (omega (arith, e))), found)
    ]

module _ (v : ℕ → List ℕ) where
  -- Each plan puts the value of its index there.
  abbrev pub placed : List CoalescedRangePlan → List (List ℕ) → List (List ℕ)
  placed [] chunks = chunks
  placed (plan ∷ plans) chunks =
      placed plans (set_chunk plan.original_index (v plan.original_index) chunks)

  pub place_chunks-placed :
      (coalesced : List RowRange) (parents : List (List ℕ)) (plans : List CoalescedRangePlan)
      (chunks : List (List ℕ))
      → All
          (λ plan.
            chunk_of plan
              (get_elem? parents plan.coalesced_index)
              (get_elem? coalesced plan.coalesced_index)
            ≡ ok (v plan.original_index))
          plans
      → place_chunks coalesced parents plans chunks ≡ ok (placed plans chunks)
  place_chunks-placed coalesced parents [] chunks h = refl
  place_chunks-placed coalesced parents (plan ∷ plans) chunks h =
      rw (h.0) (place_chunks-placed coalesced parents plans _ h.1)

  pub length-placed :
      (plans : List CoalescedRangePlan) (chunks : List (List ℕ))
      → length (placed plans chunks) ≡ length chunks
  length-placed [] chunks = refl
  length-placed (plan ∷ plans) chunks =
      length-placed plans _ ∙ length-set_chunk plan.original_index (v plan.original_index) chunks

  pub get_elem?-placed :
      (plans : List CoalescedRangePlan) (chunks : List (List ℕ)) (j : ℕ)
      → j < length chunks
      → (get_elem? chunks j ≡ some (v j)) ⊎ Any (λ plan. plan.original_index ≡ j) plans
      → get_elem? (placed plans chunks) j ≡ some (v j)
  get_elem?-placed [] chunks j h (inl found) = found
  get_elem?-placed [] chunks j h (inr none_left) = absurd none_left
  get_elem?-placed (plan ∷ plans) chunks j h known =
      let i = plan.original_index in
      get_elem?-placed plans (set_chunk i (v i) chunks) j
        (omega (arith, h, length-set_chunk i (v i) chunks))
        (elim (get_elem?-set_chunk i j (v i) chunks h) [
          | inl (e, found) ↦ inl (found ∙ ap (λ n. some (v n)) e)
          | inr (d, found) ↦ elim known [
            | inl before ↦ inl (found ∙ before)
            | inr (inl here) ↦ absurd (d here)
            | inr (inr later) ↦ inr later
          ]
        ])
