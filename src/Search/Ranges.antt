-- ===== src/Search/Ranges.antt =====
-- The reads of src/query/search.rs: ranges of an object are merged before they are asked for, and cut
-- out of the merged ones. The object store is a parameter.
pub mod Merged
pub mod Placed
pub mod Reads
pub mod Sizes
use kevindb.Base.{
  ℕ, zero, suc, ◌+◌, ◌-◌, ◌*◌, ◌^◌, min, max, Bool, true, false, ◌&&◌, ◌||◌, Option, none, some,
  List, [], ◌∷◌, leb, ltb, ◌==◌, length, get_elem?, slice, if◌then◌else◌,
}
use kevindb.Base.Text.{Text}
use kevindb.Base.Result.{Result, ok, err, ◌>>=◌}
use kevindb.Codec.Types.{RowRange}

pub record CoalescedRangePlan : Type 0 where
  pub original_index : ℕ
  pub coalesced_index : ℕ
  pub start : ℕ
  pub end : ℕ

abbrev pub coalesce_gap_bytes : ℕ
coalesce_gap_bytes = 1024 * 1024

abbrev pub coalesce_max_bytes : ℕ
coalesce_max_bytes = 16 * 1024 * 1024

-- `enumerate`, from an index on
abbrev pub enumerate : ℕ → List RowRange → List (ℕ × RowRange)
enumerate index [] = []
enumerate index (range ∷ ranges) = (index, range) ∷ enumerate (index + 1) ranges

abbrev pub range_before : RowRange → RowRange → Bool
range_before left right =
    ltb left.start right.start || ((left.start == right.start) && leb left.end right.end)

abbrev pub insert_range : ℕ × RowRange → List (ℕ × RowRange) → List (ℕ × RowRange)
insert_range indexed [] = indexed ∷ []
insert_range indexed (next ∷ sorted) =
    let rest = insert_range indexed sorted in
    if range_before indexed.1 next.1 then indexed ∷ next ∷ sorted else next ∷ rest

abbrev pub sort_ranges : List (ℕ × RowRange) → List (ℕ × RowRange)
sort_ranges [] = []
sort_ranges (indexed ∷ ranges) = insert_range indexed (sort_ranges ranges)

-- The guard of the loop, for the last merged range.
abbrev pub joins : RowRange → RowRange → Bool
joins last range =
    leb range.start (min (last.end + coalesce_gap_bytes) (2 ^ 64 - 1))
    && leb (range.end - last.start) coalesce_max_bytes

abbrev pub widen : RowRange → RowRange → RowRange
widen last range = record last { end = max last.end range.end }

abbrev pub plan_of : ℕ → ℕ × RowRange → CoalescedRangePlan
plan_of coalesced_index indexed = record {
  original_index = indexed.0;
  coalesced_index = coalesced_index;
  start = indexed.1.start;
  end = indexed.1.end;
}

abbrev pub Coalesced : Type 0
Coalesced = List RowRange × List CoalescedRangePlan

-- The loop, from the merged range `last` on, which has the index: the merged ranges from it on, and
-- the plans of what follows.
abbrev pub coalesce_from : ℕ → RowRange → List (ℕ × RowRange) → Coalesced
coalesce_from index last [] = (last ∷ [], [])
coalesce_from index last (indexed ∷ sorted) =
    let joined = coalesce_from index (widen last indexed.1) sorted in
    let next = coalesce_from (index + 1) indexed.1 sorted in
    if joins last indexed.1
    then (joined.0, plan_of index indexed ∷ joined.1)
    else (last ∷ next.0, plan_of (index + 1) indexed ∷ next.1)

abbrev pub coalesce_sorted : List (ℕ × RowRange) → Coalesced
coalesce_sorted [] = ([], [])
coalesce_sorted (indexed ∷ sorted) =
    let rest = coalesce_from 0 indexed.1 sorted in (rest.0, plan_of 0 indexed ∷ rest.1)

unfoldable pub coalesce_ranges : List RowRange → Coalesced
coalesce_ranges ranges = coalesce_sorted (sort_ranges (enumerate 0 ranges))

pub data ReadError : Type 0 where
  store_failed : Text → ReadError
  missing_range missing_range_plan slice_overflow slice_out_of_bounds : ReadError

-- `parent.slice(start..end)`, which panics out of bounds
abbrev pub cut_chunk : List ℕ → ℕ → ℕ → Result ReadError (List ℕ)
cut_chunk parent start end =
    if leb (2 ^ 64) end
    then err slice_overflow
    else if leb end (length parent)
    then ok (slice start end parent)
    else err slice_out_of_bounds

abbrev pub chunk_of :
    CoalescedRangePlan → Option (List ℕ) → Option RowRange → Result ReadError (List ℕ)
chunk_of plan none base = err missing_range
chunk_of plan (some parent) none = err missing_range_plan
chunk_of plan (some parent) (some base) =
    let start = plan.start - base.start in cut_chunk parent start (start + (plan.end - plan.start))

abbrev pub set_chunk : ℕ → List ℕ → List (List ℕ) → List (List ℕ)
set_chunk index chunk [] = []
set_chunk zero chunk (old ∷ chunks) = chunk ∷ chunks
set_chunk (suc index) chunk (old ∷ chunks) = old ∷ set_chunk index chunk chunks

abbrev pub place_chunks :
    List RowRange
    → List (List ℕ)
    → List CoalescedRangePlan
    → List (List ℕ)
    → Result ReadError (List (List ℕ))
place_chunks coalesced parents [] chunks = ok chunks
place_chunks coalesced parents (plan ∷ plans) chunks =
    chunk_of plan (get_elem? parents plan.coalesced_index)
      (get_elem? coalesced plan.coalesced_index)
    >>= λ chunk. place_chunks coalesced parents plans (set_chunk plan.original_index chunk chunks)

abbrev pub empty_chunks : List RowRange → List (List ℕ)
empty_chunks [] = []
empty_chunks (range ∷ ranges) = [] ∷ empty_chunks ranges

-- Without the statistics of the reads.
unfoldable pub read_ranges :
    (List RowRange → Result ReadError (List (List ℕ)))
    → List RowRange
    → Result ReadError (List (List ℕ))
read_ranges get_ranges [] = ok []
read_ranges get_ranges (range ∷ ranges) =
    let coalesced = coalesce_ranges (range ∷ ranges) in
    get_ranges coalesced.0 >>= λ parents.
    place_chunks coalesced.0 parents coalesced.1 (empty_chunks (range ∷ ranges))
