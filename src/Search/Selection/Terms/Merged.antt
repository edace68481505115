-- ===== src/Search/Selection/Terms/Merged.antt =====
-- What the merges of ordinals add to a selection.
use kevindb.Base.{
  ℕ, ◌≡◌, refl, ◌∙◌, arith, inl, inr, Bool, true, false, ◌&&◌, ◌||◌, Option, some, List, [], ◌∷◌,
  ◌==◌, Bool-cases, Option-cases, All,
}
use kevindb.Base.Maps.{lookup, insert}
use kevindb.Base.Text.{text_eq, text_eq_refl, text_eq→eq}
use kevindb.Codec.Types.{Bytes}
use kevindb.Search.Query.Tokens.{Distinct}
use kevindb.Search.Selection.Terms.{
  SearchIndexGroupDictionary, Selected, Entries, or_default, merge_selected_term, merge_entries,
  get, merge_found, for_groups,
}
use kevindb.Search.Selection.Terms.Chosen.{has_ordinal, has, any_entry, keys_of, any_group}

pub or_assoc : (a b c : Bool) → ((a || b) || c) ≡ (a || (b || c))
or_assoc true b c = refl
or_assoc false b c = refl

pub or_swap : (a b c : Bool) → (b || (a || c)) ≡ ((a || b) || c)
or_swap true true c = refl
or_swap true false c = refl
or_swap false b c = refl

and_or : (a b c : Bool) → (a && (b || c)) ≡ ((a && b) || (a && c))
and_or true b c = refl
and_or false b c = refl

and_false : (b : Bool) → (b && false) ≡ false
and_false true = refl
and_false false = refl

insert-has_ordinal :
    (o n : ℕ) (b : Bool) (ordinals : List (ℕ × Bool))
    → has_ordinal o (insert n b ordinals) ≡ ((n == o) || has_ordinal o ordinals)
insert-has_ordinal o n b [] = refl
insert-has_ordinal o n b ((m, c) ∷ ordinals) = ground (arith, insert-has_ordinal o n b ordinals)

-- What `lookup` finds is in the selection.
lookup-has :
    (i o g : ℕ) (selected : Selected)
    → (((g == i) && has_ordinal o (or_default [] (lookup g selected))) || has i o selected)
      ≡ has i o selected
lookup-has i o g [] = ground arith
lookup-has i o g ((m, ordinals) ∷ selected) = ground (arith, lookup-has i o g selected)

module _ (i o g : ℕ) (c : Bool) (new : List (ℕ × Bool)) where
  insert-has :
      (selected : Selected)
      → has_ordinal o new ≡ (c || has_ordinal o (or_default [] (lookup g selected)))
      → has i o (insert g new selected) ≡ (((g == i) && c) || has i o selected)
  insert-has [] e = ground (arith, e)
  insert-has ((m, ordinals) ∷ selected) e =
      ground (arith, e, lookup-has i o g selected, insert-has selected)

merge-has :
    (i o g n : ℕ) (b : Bool) (selected : Selected)
    → has i o (merge_selected_term selected g n b) ≡ (((g == i) && (n == o)) || has i o selected)
unfolding merge_selected_term
merge-has i o g n b selected =
    let ordinals = or_default [] (lookup g selected) in
    insert-has i o g (n == o) _ selected
      (insert-has_ordinal o n (or_default false (lookup n ordinals) || b) ordinals)

pub merge_entries-has :
    (i o g : ℕ) (test : Bytes → Bool) (b : Bool) (entries : Entries) (selected : Selected)
    → has i o (merge_entries test g b entries selected)
      ≡ (((g == i) && any_entry test o entries) || has i o selected)
merge_entries-has i o g test b [] selected = ground arith
merge_entries-has i o g test b ((key, n) ∷ entries) selected = elim (Bool-cases (test key)) [
  | inl wanted ↦ rw wanted (
      merge_entries-has i o g test b entries (merge_selected_term selected g n b)
      ∙ rw (merge-has i o g n b selected)
          (ordered (g == i) (n == o) (any_entry test o entries) (has i o selected)))
  | inr other ↦ rw other (merge_entries-has i o g test b entries selected)
]
  where
    ordered :
        (here this later before : Bool)
        → ((here && later) || ((here && this) || before)) ≡ ((here && (this || later)) || before)
    ordered here this later before = ground arith

-- In a dictionary whose keys differ, `get` finds the only entry of a key.
any_entry-absent :
    (o : ℕ) (key : Bytes) (entries : Entries)
    → All (λ k. text_eq key k ≡ false) (keys_of entries)
    → any_entry (λ k. text_eq k key) o entries ≡ false
any_entry-absent o key [] h = refl
any_entry-absent o key ((k, n) ∷ entries) h = elim (Bool-cases (text_eq k key)) [
  | inl same ↦
      let e : text_eq key k ≡ true = rw (text_eq→eq k key same) (text_eq_refl key) in
      let f : text_eq key k ≡ false = h.0 in cc
  | inr other ↦ rw other (any_entry-absent o key entries h.1)
]

pub merge_found-has :
    (i o g : ℕ) (b : Bool) (key : Bytes) (entries : Entries) (selected : Selected)
    → Distinct (keys_of entries)
    → has i o (merge_found g b (get key entries) selected)
      ≡ (((g == i) && any_entry (λ k. text_eq k key) o entries) || has i o selected)
merge_found-has i o g b key [] selected h = rw (and_false (g == i)) refl
merge_found-has i o g b key ((k, n) ∷ entries) selected h = elim (Bool-cases (text_eq k key)) [
  | inl same ↦
      let e : k ≡ key = text_eq→eq k key same in
      let absent : any_entry (λ k. text_eq k key) o entries ≡ false =
        any_entry-absent o key entries (rw e at h.0) in
      rw (same, absent, or_false (n == o)) (merge-has i o g n b selected)
  | inr other ↦ rw other (merge_found-has i o g b key entries selected h.1)
]
  where
    or_false : (x : Bool) → (x || false) ≡ x
    or_false true = refl
    or_false false = refl

module _ (map_new : Bytes → Option Entries) (i o : ℕ) where
  pub any_group-false :
      (groups : List SearchIndexGroupDictionary)
      → any_group map_new (λ key. false) i o groups ≡ false
  any_group-false [] = refl
  any_group-false (group ∷ groups) =
      rw (none_passes (or_default [] (map_new group.fst_bytes)), and_false (group.group_index == i))
        (any_group-false groups)
    where
      none_passes : (entries : Entries) → any_entry (λ key. false) o entries ≡ false
      none_passes [] = refl
      none_passes ((key, n) ∷ entries) = none_passes entries

  pub any_group-or :
      (f g : Bytes → Bool) (groups : List SearchIndexGroupDictionary)
      → any_group map_new (λ key. f key || g key) i o groups
        ≡ (any_group map_new f i o groups || any_group map_new g i o groups)
  any_group-or f g [] = refl
  any_group-or f g (group ∷ groups) =
      rw (either_passes (or_default [] (map_new group.fst_bytes)), any_group-or f g groups)
        (ground arith)
    where
      either_passes :
          (entries : Entries)
          → any_entry (λ key. f key || g key) o entries
            ≡ (any_entry f o entries || any_entry g o entries)
      either_passes [] = refl
      either_passes ((key, n) ∷ entries) = ground (arith, either_passes entries)

  pub for_groups-has :
      (visit : ℕ → Entries → Selected → Selected) (test : Bytes → Bool)
      (adds : (g : ℕ) (bytes : Bytes) (entries : Entries) (selected : Selected)
        → map_new bytes ≡ some entries
        → has i o (visit g entries selected)
          ≡ (((g == i) && any_entry test o entries) || has i o selected))
      (groups : List SearchIndexGroupDictionary) (selected : Selected)
      → has i o (for_groups map_new visit groups selected)
        ≡ (any_group map_new test i o groups || has i o selected)
  for_groups-has visit test adds [] selected = refl
  for_groups-has visit test adds (group ∷ groups) selected =
      elim (Option-cases (map_new group.fst_bytes)) [
        | inl refused ↦
            rw (refused, and_false (group.group_index == i))
              (for_groups-has visit test adds groups selected)
        | inr (entries, opened) ↦
            rw
              (
                opened,
                for_groups-has visit test adds groups (visit group.group_index entries selected),
                adds group.group_index group.fst_bytes entries selected opened,
              )
              (or_swap ((group.group_index == i) && any_entry test o entries)
                (any_group map_new test i o groups) (has i o selected))
      ]
