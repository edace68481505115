-- ===== src/Codec/Positions/RoundTrip.antt =====
-- `decode_positions` on encoded positions.
use kevindb.Base.{
  ℕ, ◌%◌, ◌^◌, ◌<◌, ◌≡◌, refl, sym, ◌∙◌, arith, none, some, List, [], ◌∷◌, ◌++◌, append_assoc,
  append-nil, All, length, ◌==◌, Bool-cases, inl, inr, ==_iff, if◌then◌else◌,
}
use kevindb.Base.Maps.{lookup, insert, lookup-insert, contains, collect_set_lem, Increasing}
use kevindb.Base.Result.{ok}
use kevindb.Codec.Types.{Bytes, IsU32, u32_mod}
use kevindb.Codec.Write.Laws.{vint_bytes, put_vint-vint_bytes}
use kevindb.Codec.Reader.Laws.{
  Reads, Reads-pure, Reads-bind, Reads-read_vint, Reads-new, expect_done-reader_at, concat_map,
}
use kevindb.Codec.U32List.{encode_u32_list}
use kevindb.Codec.U32List.RoundTrip.{Ascending, Reads-read_u32_list}
use kevindb.Codec.Positions.{
  positions_of, put_positions, encode_positions, read_positions, decode_positions,
}

-- The positions that an indexed row has: increasing u32 values, fewer than 2^32 of them.
pub record IsPositions (ps : List ℕ) : Type 0 where
  pub increasing : Increasing ps
  pub values : All IsU32 ps
  pub count : IsU32 (length ps)

Increasing-Ascending : (p : ℕ) (ps : List ℕ) → All (λ y. p < y) ps → Increasing ps → Ascending p ps
Increasing-Ascending p [] h k = tt
Increasing-Ascending p (x ∷ ps) h k = (omega (arith, h.0), Increasing-Ascending x ps k.0 k.1)

from_zero : (ps : List ℕ) → Increasing ps → Ascending 0 ps
from_zero [] h = tt
from_zero (x ∷ ps) h = (omega arith, Increasing-Ascending x ps h.0 h.1)

abbrev row_bytes : List (ℕ × List ℕ) → ℕ → Bytes
row_bytes m row =
    vint_bytes (length (positions_of m row)) (length (positions_of m row))
    ++ encode_u32_list (positions_of m row)

module _ (m : List (ℕ × List ℕ)) where
  abbrev Good : ℕ → Type 0
  Good row = IsPositions (positions_of m row)

  put_positions-row_bytes :
      (rows : List ℕ) (out : Bytes)
      → All Good rows
      → put_positions rows m out ≡ out ++ concat_map (row_bytes m) rows
  unfolding put_positions
  put_positions-row_bytes [] out h = sym (append-nil out)
  put_positions-row_bytes (row ∷ rows) out h =
      let ps = positions_of m row in
      let n : length ps % u32_mod ≡ length ps = omega (arith, h.0.count) in
      put_positions-row_bytes rows _ h.1
      ∙ rw (n, put_vint-vint_bytes out (length ps)) (simp append_assoc)

  -- The rows in turn, each put into the map.
  abbrev collected : List ℕ → List (ℕ × List ℕ) → List (ℕ × List ℕ)
  collected [] d = d
  collected (row ∷ rows) d = collected rows (insert row (positions_of m row) d)

  Reads-read_positions :
      (rows : List ℕ) (d : List (ℕ × List ℕ))
      → All Good rows
      → Reads (read_positions rows d) (concat_map (row_bytes m) rows) (collected rows d)
  unfolding read_positions
  Reads-read_positions [] d h = Reads-pure d
  Reads-read_positions (row ∷ rows) d h =
      let ps = positions_of m row in
      rw (append_assoc (vint_bytes (length ps) (length ps))) (
        Reads-bind _ _ (Reads-read_vint (length ps) h.0.count) (
          Reads-bind _ _ (Reads-read_u32_list ps (from_zero ps h.0.increasing) h.0.values) (
            rw (collect_set_lem ps h.0.increasing)
              (Reads-read_positions rows (insert row ps d) h.1))))

  lookup-collected :
      (row : ℕ) (rows : List ℕ) (d : List (ℕ × List ℕ))
      → lookup row (collected rows d)
        ≡ (if contains row rows then some (positions_of m row) else lookup row d)
  lookup-collected row [] d = refl
  lookup-collected row (r ∷ rows) d =
      lookup-collected row rows (insert r (positions_of m r) d)
      ∙ rw (lookup-insert r row (positions_of m r) d) (elim (Bool-cases (r == row)) [
        | inl same ↦ let e : r ≡ row = (==_iff r row).0 same in rw (same, e) (ground arith)
        | inr other ↦ rw other
      ])

-- Every row of the list has its positions in the decoded map, and no other row is in it.
pub decode_positions-encode_positions :
    (rows : List ℕ) (m : List (ℕ × List ℕ))
    → All (λ row. IsPositions (positions_of m row)) rows
    → length (encode_positions rows m) < 2 ^ 64
    → (d : List (ℕ × List ℕ)) × (decode_positions (encode_positions rows m) rows ≡ ok d)
      × ((row : ℕ) → lookup row d ≡ (if contains row rows then some (positions_of m row) else none))
unfolding decode_positions encode_positions
decode_positions-encode_positions rows m h fits =
    let e = put_positions-row_bytes m rows [] h in
    (
      collected m rows [],
      rw e (
          rw (
            Reads-new (concat_map (row_bytes m) rows) (collected m rows [])
                (Reads-read_positions m rows [] h) (rw e at fits),
            expect_done-reader_at (concat_map (row_bytes m) rows),
          )),
      λ row. lookup-collected m row rows [],
    )
