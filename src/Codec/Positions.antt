-- ===== src/Codec/Positions.antt =====
-- The positions of a term in each of its rows: `encode_positions` and `decode_positions` of
-- src/search/codec.rs.
pub mod RoundTrip
use kevindb.Base.{ℕ, ◌%◌, ◌≡◌, Option, none, some, List, [], ◌∷◌, ◌++◌, length}
use kevindb.Base.Maps.{lookup, insert, collect_set}
use kevindb.Base.Result.{Result, ok, err}
use kevindb.Codec.Types.{Bytes, Error, u32_mod}
use kevindb.Codec.Write.{put_vint}
use kevindb.Codec.U32List.{encode_u32_list, read_u32_list}
use kevindb.Codec.Reader.{
  Reader, continue, ◌>>=◌, ◌>>◌, pure, new_reader, read_vint, expect_done, result,
}

-- `positions_by_row.get(row).map(Vec::as_slice).unwrap_or(&[])`
abbrev pub positions_of : List (ℕ × List ℕ) → ℕ → List ℕ
positions_of positions_by_row row = elim (lookup row positions_by_row) [ some ps ↦ ps | none ↦ [] ]

unfoldable pub put_positions : List ℕ → List (ℕ × List ℕ) → Bytes → Bytes
put_positions [] positions_by_row out = out
put_positions (row ∷ rows) positions_by_row out =
    let positions = positions_of positions_by_row row in
    put_positions rows positions_by_row
      (put_vint out (length positions % u32_mod) ++ encode_u32_list positions)

unfoldable pub encode_positions : List ℕ → List (ℕ × List ℕ) → Bytes
encode_positions rows positions_by_row = put_positions rows positions_by_row []

unfoldable pub read_positions : List ℕ → List (ℕ × List ℕ) → Reader (List (ℕ × List ℕ))
read_positions [] positions_by_row = pure positions_by_row
read_positions (row ∷ rows) positions_by_row = do
  count ← read_vint
  positions ← read_u32_list count
  read_positions rows (insert row (collect_set [] positions) positions_by_row)

unfoldable pub decode_positions : Bytes → List ℕ → Result Error (List (ℕ × List ℕ))
decode_positions bytes rows = result (
    (do positions_by_row ← read_positions rows []; expect_done; pure positions_by_row)
      (new_reader bytes))
