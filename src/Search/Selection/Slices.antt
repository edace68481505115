-- ===== src/Search/Selection/Slices.antt =====
-- `select_search_index_terms`: the selected terms with their entries of the term tables.
pub mod Exact
pub mod Faithful
use kevindb.Base.{
  ℕ, ◌%◌, Bool, Option, none, some, List, [], ◌∷◌, ◌==◌, length, get_elem?, if◌then◌else◌,
}
use kevindb.Codec.Types.{Bytes, u32_mod, SearchIndexTermInfo}
use kevindb.Search.Query.{SearchPredicate}
use kevindb.Search.Selection.Terms.{
  SearchIndexGroupDictionary, Selected, Entries, select_terms_for_predicate,
}

pub record SearchIndexTermSlice : Type 0 where
  pub ordinal : ℕ
  pub info : SearchIndexTermInfo
  pub include_positions : Bool

pub record SearchIndexGroupTermSlices : Type 0 where
  pub group_index : ℕ
  pub fst_bytes : Bytes
  pub term_info_count : ℕ
  pub terms : List SearchIndexTermSlice

pub record SearchIndexTermSlices : Type 0 where
  pub term_key_groups : List SearchIndexGroupTermSlices
  pub term_value_groups : List SearchIndexGroupTermSlices

-- `iter().find(|group| group.group_index == group_index)`
abbrev pub find_group : ℕ → List SearchIndexGroupDictionary → Option SearchIndexGroupDictionary
find_group group_index [] = none
find_group group_index (group ∷ groups) =
    if group.group_index == group_index then some group else find_group group_index groups

-- The slices of the ordinals that have an entry in the term table.
abbrev pub push_slice :
    ℕ → Bool → Option SearchIndexTermInfo → List SearchIndexTermSlice → List SearchIndexTermSlice
push_slice ordinal include_positions none slices = slices
push_slice ordinal include_positions (some info) slices =
    record { ordinal = ordinal; info = info; include_positions = include_positions } ∷ slices

abbrev pub term_slices : List SearchIndexTermInfo → List (ℕ × Bool) → List SearchIndexTermSlice
term_slices term_infos [] = []
term_slices term_infos ((ordinal, include_positions) ∷ ordinals) =
    push_slice ordinal include_positions (get_elem? term_infos ordinal)
      (term_slices term_infos ordinals)

-- `(!terms.is_empty()).then_some(…)` for the group that was found
abbrev pub group_slices :
    ℕ
    → SearchIndexGroupDictionary
    → List SearchIndexTermSlice
    → List SearchIndexGroupTermSlices
    → List SearchIndexGroupTermSlices
group_slices group_index group [] rest = rest
group_slices group_index group (slice ∷ slices) rest =
    record {
      group_index = group_index;
      fst_bytes = group.fst_bytes;
      term_info_count = length group.term_infos % u32_mod;
      terms = slice ∷ slices;
    }
    ∷ rest

abbrev pub materialize_found :
    ℕ
    → Option SearchIndexGroupDictionary
    → List (ℕ × Bool)
    → List SearchIndexGroupTermSlices
    → List SearchIndexGroupTermSlices
materialize_found group_index none ordinals rest = rest
materialize_found group_index (some group) ordinals rest =
    group_slices group_index group (term_slices group.term_infos ordinals) rest

abbrev pub materialize_term_slices :
    List SearchIndexGroupDictionary → Selected → List SearchIndexGroupTermSlices
materialize_term_slices groups [] = []
materialize_term_slices groups ((group_index, ordinals) ∷ selected) =
    materialize_found group_index (find_group group_index groups) ordinals
      (materialize_term_slices groups selected)

unfoldable pub select_search_index_terms :
    (Bytes → Option Entries)
    → (Bytes → Bool)
    → (Bytes → Bytes)
    → (Bytes → Bytes)
    → SearchPredicate
    → List SearchIndexGroupDictionary
    → List SearchIndexGroupDictionary
    → SearchIndexTermSlices
select_search_index_terms map_new is_utf8 lossy hex_encode predicate key_groups value_groups =
    let (key_terms, value_terms) =
      select_terms_for_predicate map_new is_utf8 lossy hex_encode predicate key_groups value_groups
        ([], []) in
    record {
      term_key_groups = materialize_term_slices key_groups key_terms;
      term_value_groups = materialize_term_slices value_groups value_terms;
    }
