-- ===== src/Codec/Directory/Layout.antt =====
-- What a successful encoder has checked, and where it puts the parts of each group.
use kevindb.Base.{
  ℕ, ◌+◌, ◌^◌, ◌<◌, ◌≡◌, sym, ap, ◌∙◌, arith, List, [], ◌∷◌, ◌++◌, append_assoc, append-nil, map,
  All, length,
}
use kevindb.Base.Result.{ok, >>=-eq_ok, try_map}
use kevindb.Codec.Types.{Bytes, IsU32, RowGroup, SearchIndexRange, SearchIndexGroupDirectory}
use kevindb.Codec.Write.{checked_u32, to_le_bytes, put_u32, put_u64, put_bytes, put_range}
use kevindb.Codec.Reader.Laws.{concat_map}
use kevindb.Codec.Directory.{
  EncodedGroup, encoded_group, new_group, prepare_groups, next_range, place_group, place_groups,
  put_entry, put_entries,
}

pub checked_u32_ok : (n : ℕ) {m : ℕ} → checked_u32 n ≡ ok m → (m ≡ n) × IsU32 n
unfolding checked_u32
checked_u32_ok n h = ground arith

abbrev pub prepared : RowGroup → EncodedGroup
prepared group = encoded_group group (length group.term_infos)

abbrev pub FewTerms : RowGroup → Type 0
FewTerms group = IsU32 (length group.term_infos)

new_group_ok :
    (group : RowGroup) {e : EncodedGroup}
    → new_group group ≡ ok e
    → (e ≡ prepared group) × FewTerms group
unfolding new_group
new_group_ok group {e} h =
    let (count, checked, made) = >>=-eq_ok (checked_u32 (length group.term_infos)) _ h in
    let (same, fits) = checked_u32_ok (length group.term_infos) checked in
    let built : e ≡ encoded_group group count = cc in (built ∙ ap (encoded_group group) same, fits)

prepare_groups_ok :
    (groups : List RowGroup) {es : List EncodedGroup}
    → try_map new_group groups ≡ ok es
    → (es ≡ map prepared groups) × All FewTerms groups
prepare_groups_ok [] h = (cc, tt)
prepare_groups_ok (group ∷ groups) {es} h =
    let (e, made, h1) = >>=-eq_ok (new_group group) _ h in
    let (rest, mades, h2) = >>=-eq_ok (try_map new_group groups) _ h1 in
    let (same, few) = new_group_ok group made in
    let (sames, fews) = prepare_groups_ok groups mades in
    let built : es ≡ e ∷ rest = cc in (built ∙ cc, (few, fews))

pub prepare_groups-ok :
    (groups : List RowGroup) {es : List EncodedGroup}
    → prepare_groups groups ≡ ok es
    → (es ≡ map prepared groups) × All FewTerms groups
unfolding prepare_groups
prepare_groups-ok groups h = prepare_groups_ok groups h

-- The parts of a group, one behind the other from `offset` on.
abbrev pub group_size : EncodedGroup → ℕ
group_size g = length g.fst_bytes + length g.term_infos + length g.postings + length g.positions

abbrev pub placed : ℕ → EncodedGroup → EncodedGroup
placed offset g =
    let o1 = offset + length g.fst_bytes in
    let o2 = o1 + length g.term_infos in
    let o3 = o2 + length g.postings in
    record g {
      directory = record (g.directory) {
        fst = record { offset = offset; len = length g.fst_bytes };
        term_infos = record { offset = o1; len = length g.term_infos };
        postings = record { offset = o2; len = length g.postings };
        positions = record { offset = o3; len = length g.positions };
      };
    }

abbrev pub placed_all : ℕ → List EncodedGroup → List EncodedGroup
placed_all offset [] = []
placed_all offset (g ∷ gs) = placed offset g ∷ placed_all (offset + group_size g) gs

abbrev pub sizes : List EncodedGroup → ℕ
sizes [] = 0
sizes (g ∷ gs) = group_size g + sizes gs

next_range_ok :
    (offset len : ℕ) {r : SearchIndexRange × ℕ}
    → next_range offset len ≡ ok r
    → (r ≡ (record { offset = offset; len = len }, offset + len)) × (offset + len < 2 ^ 64)
unfolding next_range
next_range_ok offset len h = ground arith

place_group_ok :
    (g : EncodedGroup) (offset : ℕ) {r : EncodedGroup × ℕ}
    → place_group g offset ≡ ok r
    → (r ≡ (
      placed offset g,
      offset + length g.fst_bytes + length g.term_infos + length g.postings + length g.positions,
    ))
      × (offset + length g.fst_bytes + length g.term_infos + length g.postings + length g.positions
          < 2 ^ 64)
unfolding place_group next_range
place_group_ok g offset h = ground arith

pub place_groups-ok :
    (gs : List EncodedGroup) (offset : ℕ) {r : List EncodedGroup × ℕ}
    → offset < 2 ^ 64
    → place_groups gs offset ≡ ok r
    → (r ≡ (placed_all offset gs, offset + sizes gs)) × (offset + sizes gs < 2 ^ 64)
unfolding place_groups
place_groups-ok [] offset {r} fits h =
    let built : r ≡ ([], offset) = cc in
    let same : offset ≡ offset + 0 = omega arith in
    (built ∙ ap {A = ℕ} (λ o. ([], o)) same, omega arith)
place_groups-ok (g ∷ gs) offset {r} fits h =
    let ((p, o1), made, h1) = >>=-eq_ok (place_group g offset) _ h in
    let ((rest, o2), mades, h2) = >>=-eq_ok (place_groups gs o1) _ h1 in
    let (same, room) = place_group_ok g offset made in
    let next : o1 ≡ offset + group_size g =
      omega (arith, ap (λ (t : EncodedGroup × ℕ). t.1) same) in
    let (sames, rooms) = place_groups-ok gs o1 (rw next (omega (arith, room))) mades in
    let built : r ≡ (p ∷ rest, o2) = cc in
    let first : p ≡ placed offset g = ap (λ (t : EncodedGroup × ℕ). t.0) same in
    let others : rest ≡ placed_all (offset + group_size g) gs =
      ap (λ (t : List EncodedGroup × ℕ). t.0) sames ∙ ap {A = ℕ} (λ o. placed_all o gs) next in
    let end : o2 ≡ offset + (group_size g + sizes gs) =
      omega (arith, next, ap (λ (t : List EncodedGroup × ℕ). t.1) sames) in
    (built ∙ cc (first, others, end), omega (arith, next, rooms))

abbrev pub range_bytes : SearchIndexRange → Bytes
range_bytes r = to_le_bytes 8 r.offset ++ (to_le_bytes 8 r.len ++ [])

abbrev pub vec_bytes : Bytes → Bytes
vec_bytes x = to_le_bytes 4 (length x) ++ x

abbrev pub entry_bytes : SearchIndexGroupDirectory → Bytes
entry_bytes d =
    vec_bytes d.min_term
    ++ (vec_bytes d.max_term
        ++ (to_le_bytes 4 d.term_info_count
            ++ (range_bytes d.fst
                ++ (range_bytes d.term_infos
                    ++ (range_bytes d.postings ++ (range_bytes d.positions ++ []))))))

abbrev pub ShortTerms : SearchIndexGroupDirectory → Type 0
ShortTerms d = IsU32 (length d.min_term) × IsU32 (length d.max_term)

put_bytes_ok :
    (out x : Bytes) {r : Bytes}
    → put_bytes out x ≡ ok r
    → (r ≡ out ++ vec_bytes x) × IsU32 (length x)
unfolding put_bytes
put_bytes_ok out x {r} h =
    let (n, checked, h1) = >>=-eq_ok (checked_u32 (length x)) _ h in
    let (same, fits) = checked_u32_ok (length x) checked in
    let built : r ≡ (out ++ to_le_bytes 4 n) ++ x = cc in
    (built ∙ rw same (append_assoc out (to_le_bytes 4 (length x)) x), fits)

put_entry_ok :
    (out : Bytes) (d : SearchIndexGroupDirectory) {r : Bytes}
    → put_entry out d ≡ ok r
    → (r ≡ out ++ entry_bytes d) × ShortTerms d
unfolding put_entry put_u32 put_range put_u64
put_entry_ok out d {r} h =
    let (out1, put1, h1) = >>=-eq_ok (put_bytes out d.min_term) _ h in
    let (out2, put2, h2) = >>=-eq_ok (put_bytes out1 d.max_term) _ h1 in
    let (same1, short1) = put_bytes_ok out d.min_term put1 in
    let (same2, short2) = put_bytes_ok out1 d.max_term put2 in
    let w = to_le_bytes 8 in
    let built : r
        ≡ ((((((((out2 ++ to_le_bytes 4 d.term_info_count) ++ w d.fst.offset) ++ w d.fst.len)
                    ++ w d.term_infos.offset)
                  ++ w d.term_infos.len)
                ++ w d.postings.offset)
              ++ w d.postings.len)
            ++ w d.positions.offset)
          ++ w d.positions.len =
      cc in
    (built ∙ rw (same2, same1) (simp append_assoc), (short1, short2))

pub put_entries-ok :
    (out : Bytes) (gs : List EncodedGroup) {r : Bytes}
    → put_entries out gs ≡ ok r
    → (r ≡ out ++ concat_map (λ g. entry_bytes g.directory) gs)
      × All (λ g. ShortTerms g.directory) gs
unfolding put_entries
put_entries-ok out [] {r} h = (let built : r ≡ out = cc in built ∙ sym (append-nil out), tt)
put_entries-ok out (g ∷ gs) {r} h =
    let (out1, put1, h1) = >>=-eq_ok (put_entry out g.directory) _ h in
    let (same1, short1) = put_entry_ok out g.directory put1 in
    let (same, shorts) = put_entries-ok out1 gs h1 in
    (same ∙ rw same1 (append_assoc out (entry_bytes g.directory) _), (short1, shorts))
