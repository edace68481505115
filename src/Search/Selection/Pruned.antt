-- ===== src/Search/Selection/Pruned.antt =====
-- The selected groups and the selected terms of one predicate.
use kevindb.Base.{
  ℕ, ◌≡◌, refl, sym, ◌∙◌, inl, inr, Bool, true, false, ◌&&◌, Option, some, List, [], ◌∷◌, ◌==◌,
  ==_iff, get_elem?, Bool-cases, All,
}
use kevindb.Base.Maps.{contains}
use kevindb.Codec.Types.{Bytes, SearchIndexGroupDirectory, SearchIndexDirectory}
use kevindb.Search.Query.{SearchPredicate}
use kevindb.Search.Query.Tokens.{Distinct}
use kevindb.Search.Selection.Wanted.{Side}
use kevindb.Search.Selection.Groups.{select_search_index_groups}
use kevindb.Search.Selection.Groups.Keeps.{selected_groups}
use kevindb.Search.Selection.Groups.Complete.{Holds, groups_of, select_search_index_groups_complete}
use kevindb.Search.Selection.Terms.{SearchIndexGroupDictionary, Entries, or_default}
use kevindb.Search.Selection.Terms.Chosen.{keys_of, any_entry, any_group, chosen}
use kevindb.Search.Selection.Terms.Predicate.{on_side}
use kevindb.Search.Selection.Slices.{select_search_index_terms}
use kevindb.Search.Selection.Slices.Exact.{
  has_slice, in_table, slices_on, select_search_index_terms_exact,
}
use kevindb.Search.Selection.Terms.About.{chosen-wanted}

module _ (o : ℕ) (test : Bytes → Bool) (P : Bytes → Type 0) where
  any_entry-find :
      (entries : Entries)
      → All P (keys_of entries)
      → any_entry test o entries ≡ true
      → (key : Bytes) × ((test key ≡ true) × P key)
  any_entry-find [] h e = cc
  any_entry-find ((key, n) ∷ entries) h e = elim (Bool-cases (test key)) [
    | inl passes ↦ (key, (passes, h.0))
    | inr other ↦ any_entry-find entries h.1 (rw other at e)
  ]

module _ (map_new : Bytes → Option Entries) (side : Side) (directory : SearchIndexDirectory) where
  -- The directory has a group with the dictionary's index, and its bounds enclose the keys.
  abbrev pub InBounds : SearchIndexGroupDictionary → Type 0
  InBounds group =
      (bounds : SearchIndexGroupDirectory) × ((get_elem? (groups_of side directory)
            group.group_index
          ≡ some bounds)
        × (All (λ key. Holds key bounds) (keys_of (or_default [] (map_new group.fst_bytes)))))

  any_group-find :
      (test : Bytes → Bool) (i o : ℕ) (groups : List SearchIndexGroupDictionary)
      → All InBounds groups
      → any_group map_new test i o groups ≡ true
      → (key : Bytes) × (bounds : SearchIndexGroupDirectory) × ((get_elem?
              (groups_of side directory)
              i
            ≡ some bounds)
          × Holds key bounds
          × (test key ≡ true))
  any_group-find test i o [] h e = cc
  any_group-find test i o (group ∷ groups) h e = elim (Bool-cases (group.group_index == i)) [
    | inr other ↦ any_group-find test i o groups h.1 (rw other at e)
    | inl here ↦
        let entries = or_default [] (map_new group.fst_bytes) in
        elim (Bool-cases (any_entry test o entries)) [
          | inr absent ↦ any_group-find test i o groups h.1 (rw (here, absent) at e)
          | inl found ↦
              let (bounds, (place, holds)) = h.0 in
              let (key, (passes, inside)) =
                any_entry-find o test (λ k. Holds k bounds) entries holds found in
              (key, bounds, (rw ((==_iff group.group_index i).0 here) at place, inside, passes))
        ]
  ]

-- Let the keys of each FST differ and be bytes within the bounds that the directory has for the
-- dictionary's group. Then each group in which `select_search_index_terms` has a slice is one that
-- `select_search_index_groups` selects for the predicate, on the side of the keys as on that of the
-- values.
pub select_search_index_terms-groups :
    (map_new : Bytes → Option Entries)
    (unique : (bytes : Bytes) (entries : Entries)
      → map_new bytes ≡ some entries
      → Distinct (keys_of entries))
    (is_utf8 : Bytes → Bool) (lossy hex_encode : Bytes → Bytes) (predicate : SearchPredicate)
    (directory : SearchIndexDirectory) (key_groups value_groups : List SearchIndexGroupDictionary)
    (side : Side) (i o : ℕ)
    → All (InBounds map_new side directory) (on_side side (key_groups, value_groups))
    → has_slice i o (
        slices_on side (
          select_search_index_terms map_new is_utf8 lossy hex_encode predicate key_groups
            value_groups))
      ≡ true
    → contains i (selected_groups side (select_search_index_groups hex_encode directory predicate))
      ≡ true
select_search_index_terms-groups map_new unique is_utf8 lossy hex_encode predicate directory
      key_groups value_groups side i o bounded h =
    let groups = on_side side (key_groups, value_groups) in
    let exact =
      select_search_index_terms_exact map_new unique is_utf8 lossy hex_encode predicate key_groups
        value_groups side i o in
    let found : any_group map_new (chosen is_utf8 lossy hex_encode side predicate) i o groups
        ≡ true =
      both _ (in_table i o groups) (sym (exact.0) ∙ h) in
    let (key, bounds, (place, holds, passes)) =
      any_group-find map_new side directory (chosen is_utf8 lossy hex_encode side predicate) i o
        groups bounded found in
    select_search_index_groups_complete hex_encode directory predicate side i bounds key place holds
      (chosen-wanted is_utf8 lossy hex_encode key side predicate passes)
  where
    both : (a b : Bool) → (a && b) ≡ true → a ≡ true
    both true b e = refl
    both false b e = e
