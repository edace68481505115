-- ===== src/Search/Selection/Slices/Exact.antt =====
-- Which ordinals the slices have.
use kevindb.Base.{
  ℕ, ◌≡◌, refl, ◌∙◌, arith, inl, inr, Bool, true, false, ◌&&◌, ◌||◌, Option, none, some, List, [],
  ◌∷◌, ◌==◌, ==_iff, get_elem?, Bool-cases, All,
}
use kevindb.Codec.Types.{Bytes, SearchIndexTermInfo}
use kevindb.Search.Query.{SearchPredicate}
use kevindb.Search.Query.Tokens.{Distinct}
use kevindb.Search.Selection.Wanted.{Side, keys, values}
use kevindb.Search.Selection.Terms.{SearchIndexGroupDictionary, Selected, Entries}
use kevindb.Search.Selection.Terms.Chosen.{has_ordinal, has, keys_of, any_group, chosen}
use kevindb.Search.Selection.Terms.Predicate.{on_side, predicate-Selects}
use kevindb.Search.Selection.Slices.{
  SearchIndexTermSlices, SearchIndexTermSlice, SearchIndexGroupTermSlices, find_group, push_slice,
  term_slices, group_slices, materialize_found, materialize_term_slices, select_search_index_terms,
}
use kevindb.Search.Selection.Slices.Faithful.{FromGroup, materialize_term_slices-FromGroup}

abbrev pub has_term : ℕ → List SearchIndexTermSlice → Bool
has_term ordinal [] = false
has_term ordinal (slice ∷ slices) = (slice.ordinal == ordinal) || has_term ordinal slices

-- A slice of a group with this index has the ordinal.
abbrev pub has_slice : ℕ → ℕ → List SearchIndexGroupTermSlices → Bool
has_slice group_index ordinal [] = false
has_slice group_index ordinal (group ∷ groups) =
    ((group.group_index == group_index) && has_term ordinal group.terms)
    || has_slice group_index ordinal groups

abbrev is_some : {A : Type 0} → Option A → Bool
is_some none = false
is_some (some a) = true

-- The first dictionary with this index has an entry for the ordinal in its term table.
abbrev pub has_info : ℕ → Option SearchIndexGroupDictionary → Bool
has_info ordinal none = false
has_info ordinal (some group) = is_some (get_elem? group.term_infos ordinal)

abbrev pub in_table : ℕ → ℕ → List SearchIndexGroupDictionary → Bool
in_table group_index ordinal groups = has_info ordinal (find_group group_index groups)

push_slice-has_term :
    (o n : ℕ) (positions : Bool) (info : Option SearchIndexTermInfo)
    (slices : List SearchIndexTermSlice)
    → has_term o (push_slice n positions info slices)
      ≡ (((n == o) && is_some info) || has_term o slices)
push_slice-has_term o n positions none slices = ground arith
push_slice-has_term o n positions (some info) slices = ground arith

term_slices-has_term :
    (o : ℕ) (term_infos : List SearchIndexTermInfo) (ordinals : List (ℕ × Bool))
    → has_term o (term_slices term_infos ordinals)
      ≡ (has_ordinal o ordinals && is_some (get_elem? term_infos o))
term_slices-has_term o term_infos [] = refl
term_slices-has_term o term_infos ((n, positions) ∷ ordinals) =
    push_slice-has_term o n positions (get_elem? term_infos n) _
    ∙ rw (term_slices-has_term o term_infos ordinals) (elim (Bool-cases (n == o)) [
      | inl same ↦
          rw ((==_iff n o).0 same)
            (both (o == o) (has_ordinal o ordinals) (is_some (get_elem? term_infos o)))
      | inr other ↦ rw other refl
    ])
  where
    both : (a b c : Bool) → ((a && c) || (b && c)) ≡ ((a || b) && c)
    both a b c = ground arith

group_slices-has_slice :
    (i o g : ℕ) (group : SearchIndexGroupDictionary) (slices : List SearchIndexTermSlice)
    (rest : List SearchIndexGroupTermSlices)
    → has_slice i o (group_slices g group slices rest)
      ≡ (((g == i) && has_term o slices) || has_slice i o rest)
group_slices-has_slice i o g group [] rest = ground arith
group_slices-has_slice i o g group (slice ∷ slices) rest = refl

materialize_found-has_slice :
    (i o g : ℕ) (found : Option SearchIndexGroupDictionary) (ordinals : List (ℕ × Bool))
    (rest : List SearchIndexGroupTermSlices)
    → has_slice i o (materialize_found g found ordinals rest)
      ≡ (((g == i) && (has_ordinal o ordinals && has_info o found)) || has_slice i o rest)
materialize_found-has_slice i o g none ordinals rest = ground arith
materialize_found-has_slice i o g (some group) ordinals rest =
    group_slices-has_slice i o g group (term_slices group.term_infos ordinals) rest
    ∙ rw (term_slices-has_term o group.term_infos ordinals) refl

materialize_term_slices-has_slice :
    (i o : ℕ) (groups : List SearchIndexGroupDictionary) (selected : Selected)
    → has_slice i o (materialize_term_slices groups selected)
      ≡ (has i o selected && in_table i o groups)
materialize_term_slices-has_slice i o groups [] = refl
materialize_term_slices-has_slice i o groups ((g, ordinals) ∷ selected) =
    materialize_found-has_slice i o g (find_group g groups) ordinals _
    ∙ rw (materialize_term_slices-has_slice i o groups selected) (elim (Bool-cases (g == i)) [
      | inl same ↦
          rw ((==_iff g i).0 same)
            (both (i == i) (has_ordinal o ordinals) (has i o selected) (in_table i o groups))
      | inr other ↦ rw other refl
    ])
  where
    both : (a b c d : Bool) → ((a && (b && d)) || (c && d)) ≡ (((a && b) || c) && d)
    both a b c d = ground arith

or_false : (b : Bool) → (b || false) ≡ b
or_false true = refl
or_false false = refl

abbrev pub slices_on : Side → SearchIndexTermSlices → List SearchIndexGroupTermSlices
slices_on keys slices = slices.term_key_groups
slices_on values slices = slices.term_value_groups

-- Let the keys of each FST differ. On the side of the keys as on that of the values,
-- `select_search_index_terms` has a slice for an ordinal in a group with some index exactly if a
-- dictionary with this index has the ordinal for a key that the predicate chooses, and the first
-- dictionary with the index has an entry for the ordinal in its term table. Each of its groups has
-- one or more slices, the FST of that first dictionary, and in each slice the dictionary's entry at
-- the slice's ordinal.
pub select_search_index_terms_exact :
    (map_new : Bytes → Option Entries)
    (unique : (bytes : Bytes) (entries : Entries)
      → map_new bytes ≡ some entries
      → Distinct (keys_of entries))
    (is_utf8 : Bytes → Bool) (lossy hex_encode : Bytes → Bytes) (predicate : SearchPredicate)
    (key_groups value_groups : List SearchIndexGroupDictionary) (side : Side) (i o : ℕ)
    → (has_slice i o (
          slices_on side (
            select_search_index_terms map_new is_utf8 lossy hex_encode predicate key_groups
              value_groups))
        ≡ (any_group map_new
              (chosen is_utf8 lossy hex_encode side predicate)
              i
              o
              (on_side side (key_groups, value_groups))
            && in_table i o (on_side side (key_groups, value_groups))))
      × (All (FromGroup (on_side side (key_groups, value_groups))) (
          slices_on side (
            select_search_index_terms map_new is_utf8 lossy hex_encode predicate key_groups
              value_groups)))
unfolding select_search_index_terms
select_search_index_terms_exact map_new unique is_utf8 lossy hex_encode predicate key_groups
      value_groups keys i o =
    (
      materialize_term_slices-has_slice i o key_groups _
          ∙ rw
              (
                predicate-Selects map_new unique is_utf8 lossy hex_encode i o key_groups
                    value_groups keys predicate ([], []),
                or_false (
                    any_group map_new (chosen is_utf8 lossy hex_encode keys predicate) i o
                      key_groups),
              )
              refl,
      materialize_term_slices-FromGroup key_groups _,
    )
select_search_index_terms_exact map_new unique is_utf8 lossy hex_encode predicate key_groups
      value_groups values i o =
    (
      materialize_term_slices-has_slice i o value_groups _
          ∙ rw
              (
                predicate-Selects map_new unique is_utf8 lossy hex_encode i o key_groups
                    value_groups values predicate ([], []),
                or_false (
                    any_group map_new (chosen is_utf8 lossy hex_encode values predicate) i o
                      value_groups),
              )
              refl,
      materialize_term_slices-FromGroup value_groups _,
    )
