-- ===== src/Tests/Ranges.antt =====
-- Reads of an object of eight bytes.
use kevindb.Base.{ℕ, ◌≡◌, refl, arith, List, [], ◌∷◌, map, All}
use kevindb.Base.Result.{Result, ok}
use kevindb.Codec.Types.{RowRange}
use kevindb.Search.Ranges.{coalesce_ranges, read_ranges, ReadError}
use kevindb.Search.Ranges.Reads.{slice_at, read_ranges_lem}
use kevindb.Search.Ranges.Sizes.{SmallOrAsked, coalesce_ranges-SmallOrAsked}

abbrev object : List ℕ
object = 10 ∷ 11 ∷ 12 ∷ 13 ∷ 14 ∷ 15 ∷ 16 ∷ 17 ∷ []

abbrev asked : List RowRange
asked =
    record { start = 5; end = 7 }
    ∷ record { start = 0; end = 2 }
    ∷ record { start = 1; end = 4 }
    ∷ []

abbrev far : List RowRange
far = record { start = 9000000; end = 9000009 } ∷ record { start = 0; end = 5 } ∷ []

abbrev get_slices : List RowRange → Result ReadError (List (List ℕ))
get_slices ranges = ok (map (slice_at object) ranges)

merged : (coalesce_ranges asked).0 ≡ record { start = 0; end = 7 } ∷ []
unfolding coalesce_ranges
merged = refl

kept_apart :
    (coalesce_ranges far).0
    ≡ record { start = 0; end = 5 } ∷ record { start = 9000000; end = 9000009 } ∷ []
unfolding coalesce_ranges
kept_apart = refl

read_ranges_lem_example :
    read_ranges get_slices asked ≡ ok ((15 ∷ 16 ∷ []) ∷ (10 ∷ 11 ∷ []) ∷ (11 ∷ 12 ∷ 13 ∷ []) ∷ [])
read_ranges_lem_example =
    read_ranges_lem get_slices object asked (λ ranges valid. refl) (omega arith)
      ((omega arith, omega arith), ((omega arith, omega arith), ((omega arith, omega arith), tt)))

coalesce_ranges-SmallOrAsked_example : All (SmallOrAsked far) (coalesce_ranges far).0
coalesce_ranges-SmallOrAsked_example = coalesce_ranges-SmallOrAsked far
