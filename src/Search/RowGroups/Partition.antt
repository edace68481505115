-- ===== src/Search/RowGroups/Partition.antt =====
-- The groups that are built and the parts of the list they stand for.
use kevindb.Base.{
  ℕ, ◌≡◌, refl, sym, ap, ◌∙◌, inl, inr, Bool, false, ◌&&◌, not, Option, List, [], ◌∷◌, ◌++◌,
  append_assoc, append-nil, length, Bool-cases, and_left, is_false,
}
use kevindb.Base.Result.{Result, ok, err, Result-cases}
use kevindb.Codec.Types.{Bytes, Error, RowGroup}
use kevindb.Search.RowGroups.{
  TermEntry, estimated_term_bytes, first_term, last_term, is_empty_entries, encode_entries,
  empty_state, or_invalid, encode_row_group, is_full, finish_groups, group_entries,
  build_row_groups,
}

-- The entries of some parts, one part after the other.
abbrev pub concat : List (List TermEntry) → List TermEntry
concat [] = []
concat (part ∷ parts) = part ++ concat parts

pub concat-append : (xs ys : List (List TermEntry)) → concat (xs ++ ys) ≡ concat xs ++ concat ys
concat-append [] ys = refl
concat-append (x ∷ xs) ys =
    ap (◌++◌ x) (concat-append xs ys) ∙ sym (append_assoc x (concat xs) (concat ys))

-- A group bounds its part: no part is empty, and its first and its last term are the bounds.
abbrev pub Bounded : List (List TermEntry) → List RowGroup → Type 0
Bounded [] [] = Unit {0}
Bounded [] (group ∷ groups) = ⊥
Bounded (part ∷ parts) [] = ⊥
Bounded (part ∷ parts) (group ∷ groups) =
    (is_empty_entries part ≡ false)
    × (group.min_term ≡ first_term part)
    × (group.max_term ≡ last_term part)
    × Bounded parts groups

Bounded-append :
    (parts : List (List TermEntry)) (groups : List RowGroup) (part : List TermEntry)
    (group : RowGroup)
    → Bounded parts groups
    → is_empty_entries part ≡ false
    → group.min_term ≡ first_term part
    → group.max_term ≡ last_term part
    → Bounded (parts ++ (part ∷ [])) (groups ++ (group ∷ []))
Bounded-append [] [] part group h full lo hi = (full, lo, hi, tt)
Bounded-append [] (g ∷ groups) part group h full lo hi = absurd h
Bounded-append (p ∷ parts) [] part group h full lo hi = absurd h
Bounded-append (p ∷ parts) (g ∷ groups) part group h full lo hi =
    (h.0, h.1, h.2, Bounded-append parts groups part group h.3 full lo hi)

-- The parts that some groups bound.
abbrev pub Parts : List TermEntry → List RowGroup → Type 0
Parts entries groups =
    (parts : List (List TermEntry)) × ((concat parts ≡ entries) × Bounded parts groups)

module _ {Builder : Type 0} (memory : Builder) (insert_key : Bytes → ℕ → Builder → Option Builder)
    (into_inner : Builder → Option Bytes) where
  encode_row_group-bounds :
      (entries : List TermEntry) (positions : Bool) (group : RowGroup)
      → encode_row_group memory insert_key into_inner entries positions ≡ ok group
      → (group.min_term ≡ first_term entries) × (group.max_term ≡ last_term entries)
  unfolding encode_row_group
  encode_row_group-bounds entries positions group h =
      elim (Result-cases (
        encode_entries memory insert_key into_inner positions 0 entries
          (empty_state memory insert_key into_inner))) [
            | inl (e, failed) ↦ absurd (clash (rw (encode_row_group, failed) at h))
            | inr (state, done) ↦
                elim (Result-cases
                  (or_invalid memory insert_key into_inner (into_inner state.fst))) [
                    | inl (e, failed) ↦ absurd (clash (rw (encode_row_group, done, failed) at h))
                    | inr (fst_bytes, finished) ↦
                        let e = inj (rw (encode_row_group, done, finished) at h) in
                        (sym (ap (λ g. g.min_term) e), sym (ap (λ g. g.max_term) e))
                  ]
          ]
    where
      clash : {e : Error} {g : RowGroup} → ◌≡◌ {A = Result Error RowGroup} (err e) (ok g) → ⊥
      clash e = cc

      inj : {a b : RowGroup} → ◌≡◌ {A = Result Error RowGroup} (ok a) (ok b) → a ≡ b
      inj e = cc

  Parts-encode :
      (before part : List TermEntry) (positions : Bool) (groups : List RowGroup) (group : RowGroup)
      → Parts before groups
      → is_empty_entries part ≡ false
      → encode_row_group memory insert_key into_inner part positions ≡ ok group
      → Parts (before ++ part) (groups ++ (group ∷ []))
  Parts-encode before part positions groups group (parts, (joined, bounded)) full h =
      let (lo, hi) = encode_row_group-bounds part positions group h in
      (
        parts ++ (part ∷ []),
        (
          concat-append parts (part ∷ []) ∙ rw (joined, append-nil part) refl,
          Bounded-append parts groups part group bounded full lo hi,
        ),
      )

  finish_groups-Parts :
      (before current : List TermEntry) (positions : Bool) (groups out : List RowGroup)
      → Parts before groups
      → finish_groups memory insert_key into_inner positions current groups ≡ ok out
      → Parts (before ++ current) out
  finish_groups-Parts before [] positions groups out built h =
      let e : groups ≡ out = cc in rw (append-nil before, sym e) built
  finish_groups-Parts before (entry ∷ current) positions groups out built h =
      elim (Result-cases
        (encode_row_group memory insert_key into_inner (entry ∷ current) positions)) [
          | inl (e, failed) ↦ absurd (clash (rw failed at h))
          | inr (group, encoded) ↦
              let e : groups ++ (group ∷ []) ≡ out = inj (rw encoded at h) in
              rw (sym e)
                (Parts-encode before (entry ∷ current) positions groups group built refl encoded)
        ]
    where
      clash :
          {e : Error} {g : List RowGroup}
          → ◌≡◌ {A = Result Error (List RowGroup)} (err e) (ok g)
          → ⊥
      clash e = cc

      inj : {a b : List RowGroup} → ◌≡◌ {A = Result Error (List RowGroup)} (ok a) (ok b) → a ≡ b
      inj e = cc

  group_entries-Parts :
      (before entries current : List TermEntry) (positions : Bool) (postings raw : ℕ)
      (groups out : List RowGroup)
      → Parts before groups
      → group_entries memory insert_key into_inner positions entries current postings raw groups
        ≡ ok out
      → Parts (before ++ (current ++ entries)) out
  unfolding group_entries
  group_entries-Parts before [] current positions postings raw groups out built h =
      rw (append-nil current) (finish_groups-Parts before current positions groups out built h)
  group_entries-Parts before (entry ∷ entries) current positions postings raw groups out built h =
      elim (Bool-cases (
        not (is_empty_entries current)
        && is_full memory insert_key into_inner postings (estimated_term_bytes entry positions) raw
            (length entry.term))) [
              | inr room ↦ rw (sym (append_assoc current (entry ∷ []) entries)) (
                  group_entries-Parts before entries (current ++ (entry ∷ [])) positions _ _ groups
                    out built (rw room at h))
              | inl full ↦
                  elim (Result-cases
                    (encode_row_group memory insert_key into_inner current positions)) [
                      | inl (e, failed) ↦ absurd (clash (rw (full, failed) at h))
                      | inr (group, encoded) ↦
                          rw (sym (append_assoc before current (entry ∷ entries))) (
                            group_entries-Parts (before ++ current) entries (entry ∷ []) positions _
                              _ (groups ++ (group ∷ [])) out
                              (Parts-encode before current positions groups group built
                                (is_false _ (and_left _ _ full)) encoded)
                              (rw (full, encoded) at h))
                    ]
            ]
    where
      clash :
          {e : Error} {g : List RowGroup}
          → ◌≡◌ {A = Result Error (List RowGroup)} (err e) (ok g)
          → ⊥
      clash e = cc

-- If `build_row_groups` succeeds, its groups belong, in order, to consecutive parts of the list of
-- entries that together are the whole list; no part is empty, and a group's smallest and largest
-- term are the first and the last term of its part.
pub build_row_groups-Parts :
    {Builder : Type 0} (memory : Builder) (insert_key : Bytes → ℕ → Builder → Option Builder)
    (into_inner : Builder → Option Bytes) (entries : List TermEntry) (include_positions : Bool)
    (groups : List RowGroup)
    → build_row_groups memory insert_key into_inner entries include_positions ≡ ok groups
    → Parts entries groups
unfolding build_row_groups
build_row_groups-Parts memory insert_key into_inner entries include_positions groups h =
    group_entries-Parts memory insert_key into_inner [] entries [] include_positions 0 0 [] groups
      ([], (refl, tt)) h
