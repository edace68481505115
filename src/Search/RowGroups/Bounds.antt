-- ===== src/Search/RowGroups/Bounds.antt =====
-- The bounds of the groups of a sorted list of terms.
use kevindb.Base.{ℕ, ◌≡◌, subst, sym, Bool, true, Option, List, [], ◌∷◌, ◌++◌, All}
use kevindb.Base.Result.{ok}
use kevindb.Codec.Types.{Bytes, RowGroup}
use kevindb.Search.Terms.{leb_bytes}
use kevindb.Search.Terms.Pruning.{leb_bytes_refl}
use kevindb.Search.RowGroups.{TermEntry, first_term, last_term, build_row_groups}
use kevindb.Search.RowGroups.Partition.{concat, Bounded, build_row_groups-Parts}

-- No term is above a later one.
abbrev pub Sorted : List TermEntry → Type 0
Sorted [] = Unit {0}
Sorted (entry ∷ entries) =
    All (λ next. leb_bytes entry.term next.term ≡ true) entries × Sorted entries

-- Each group's bounds enclose the terms of its part.
abbrev pub Encloses : List (List TermEntry) → List RowGroup → Type 0
Encloses [] [] = Unit {0}
Encloses [] (group ∷ groups) = ⊥
Encloses (part ∷ parts) [] = ⊥
Encloses (part ∷ parts) (group ∷ groups) =
    (All (λ entry. leb_bytes group.min_term entry.term ≡ true) part)
    × (All (λ entry. leb_bytes entry.term group.max_term ≡ true) part)
    × Encloses parts groups

All-prefix : (P : TermEntry → Type 0) (xs ys : List TermEntry) → All P (xs ++ ys) → All P xs
All-prefix P [] ys h = tt
All-prefix P (x ∷ xs) ys h = (h.0, All-prefix P xs ys h.1)

Sorted-prefix : (xs ys : List TermEntry) → Sorted (xs ++ ys) → Sorted xs
Sorted-prefix [] ys h = tt
Sorted-prefix (x ∷ xs) ys h = (All-prefix _ xs ys h.0, Sorted-prefix xs ys h.1)

Sorted-suffix : (xs ys : List TermEntry) → Sorted (xs ++ ys) → Sorted ys
Sorted-suffix [] ys h = h
Sorted-suffix (x ∷ xs) ys h = Sorted-suffix xs ys h.1

last_term-above :
    (a : Bytes) (x : TermEntry) (xs : List TermEntry)
    → All (λ y. leb_bytes a y.term ≡ true) (x ∷ xs)
    → leb_bytes a (last_term (x ∷ xs)) ≡ true
last_term-above a x [] h = h.0
last_term-above a x (y ∷ xs) h = last_term-above a y xs h.1

Sorted-first :
    (part : List TermEntry)
    → Sorted part
    → All (λ y. leb_bytes (first_term part) y.term ≡ true) part
Sorted-first [] h = tt
Sorted-first (x ∷ xs) h = (leb_bytes_refl x.term, h.0)

Sorted-last :
    (part : List TermEntry) → Sorted part → All (λ y. leb_bytes y.term (last_term part) ≡ true) part
Sorted-last [] h = tt
Sorted-last (x ∷ []) h = (leb_bytes_refl x.term, tt)
Sorted-last (x ∷ y ∷ xs) h = (last_term-above x.term y xs h.0, Sorted-last (y ∷ xs) h.1)

Bounded-Encloses :
    (parts : List (List TermEntry)) (groups : List RowGroup)
    → Bounded parts groups
    → Sorted (concat parts)
    → Encloses parts groups
Bounded-Encloses [] [] b s = tt
Bounded-Encloses [] (g ∷ groups) b s = b
Bounded-Encloses (p ∷ parts) [] b s = b
Bounded-Encloses (p ∷ parts) (g ∷ groups) b s =
    let sorted = Sorted-prefix p (concat parts) s in
    (
      rw (b.1) (Sorted-first p sorted),
      rw (b.2) (Sorted-last p sorted),
      Bounded-Encloses parts groups b.3 (Sorted-suffix p (concat parts) s),
    )

-- If `build_row_groups` succeeds on entries of which no term is above a later one, the entries are
-- cut into consecutive parts, one for each group, whose terms are all between the group's smallest
-- and largest term.
pub build_row_groups-Encloses :
    {Builder : Type 0} (memory : Builder) (insert_key : Bytes → ℕ → Builder → Option Builder)
    (into_inner : Builder → Option Bytes) (entries : List TermEntry) (include_positions : Bool)
    (groups : List RowGroup)
    → Sorted entries
    → build_row_groups memory insert_key into_inner entries include_positions ≡ ok groups
    → (parts : List (List TermEntry)) × ((concat parts ≡ entries) × Encloses parts groups)
build_row_groups-Encloses memory insert_key into_inner entries include_positions groups sorted h =
    let (parts, (joined, bounded)) =
      build_row_groups-Parts memory insert_key into_inner entries include_positions groups h in
    (parts, (joined, Bounded-Encloses parts groups bounded (subst Sorted (sym joined) sorted)))
