-- ===== src/Search/Selection/Slices/Faithful.antt =====
-- The slices and the dictionaries they come from.
use kevindb.Base.{
  ℕ, ◌≤◌, ◌≡◌, refl, arith, Bool, Option, none, some, List, [], ◌∷◌, length, get_elem?, All,
}
use kevindb.Codec.Types.{SearchIndexTermInfo}
use kevindb.Search.Selection.Terms.{SearchIndexGroupDictionary, Selected}
use kevindb.Search.Selection.Slices.{
  SearchIndexTermSlice, SearchIndexGroupTermSlices, find_group, push_slice, term_slices,
  group_slices, materialize_found, materialize_term_slices,
}

-- The slice has the entry at its ordinal.
abbrev pub IsEntry : List SearchIndexTermInfo → SearchIndexTermSlice → Type 0
IsEntry term_infos slice = get_elem? term_infos slice.ordinal ≡ some slice.info

-- The slices of a group: one or more, with the bytes and the entries of the first dictionary that
-- has the group's index.
abbrev pub FromGroup : List SearchIndexGroupDictionary → SearchIndexGroupTermSlices → Type 0
FromGroup groups slices =
    (group : SearchIndexGroupDictionary) × ((find_group slices.group_index groups ≡ some group)
      × (slices.fst_bytes ≡ group.fst_bytes)
      × (1 ≤ length slices.terms)
      × (All (IsEntry group.term_infos) slices.terms))

push_slice-IsEntry :
    (term_infos : List SearchIndexTermInfo) (ordinal : ℕ) (positions : Bool)
    (found : Option SearchIndexTermInfo) (slices : List SearchIndexTermSlice)
    → get_elem? term_infos ordinal ≡ found
    → All (IsEntry term_infos) slices
    → All (IsEntry term_infos) (push_slice ordinal positions found slices)
push_slice-IsEntry term_infos ordinal positions none slices e h = h
push_slice-IsEntry term_infos ordinal positions (some info) slices e h = (e, h)

term_slices-IsEntry :
    (term_infos : List SearchIndexTermInfo) (ordinals : List (ℕ × Bool))
    → All (IsEntry term_infos) (term_slices term_infos ordinals)
term_slices-IsEntry term_infos [] = tt
term_slices-IsEntry term_infos ((ordinal, positions) ∷ ordinals) =
    push_slice-IsEntry term_infos ordinal positions (get_elem? term_infos ordinal) _ refl
      (term_slices-IsEntry term_infos ordinals)

module _ (groups : List SearchIndexGroupDictionary) where
  group_slices-FromGroup :
      (group_index : ℕ) (group : SearchIndexGroupDictionary) (slices : List SearchIndexTermSlice)
      (rest : List SearchIndexGroupTermSlices)
      → find_group group_index groups ≡ some group
      → All (IsEntry group.term_infos) slices
      → All (FromGroup groups) rest
      → All (FromGroup groups) (group_slices group_index group slices rest)
  group_slices-FromGroup group_index group [] rest e h k = k
  group_slices-FromGroup group_index group (slice ∷ slices) rest e h k =
      ((group, (e, refl, omega arith, h)), k)

  materialize_found-FromGroup :
      (group_index : ℕ) (found : Option SearchIndexGroupDictionary) (ordinals : List (ℕ × Bool))
      (rest : List SearchIndexGroupTermSlices)
      → find_group group_index groups ≡ found
      → All (FromGroup groups) rest
      → All (FromGroup groups) (materialize_found group_index found ordinals rest)
  materialize_found-FromGroup group_index none ordinals rest e k = k
  materialize_found-FromGroup group_index (some group) ordinals rest e k =
      group_slices-FromGroup group_index group (term_slices group.term_infos ordinals) rest e
        (term_slices-IsEntry group.term_infos ordinals) k

  pub materialize_term_slices-FromGroup :
      (selected : Selected) → All (FromGroup groups) (materialize_term_slices groups selected)
  materialize_term_slices-FromGroup [] = tt
  materialize_term_slices-FromGroup ((group_index, ordinals) ∷ selected) =
      materialize_found-FromGroup group_index (find_group group_index groups) ordinals _ refl
        (materialize_term_slices-FromGroup selected)
