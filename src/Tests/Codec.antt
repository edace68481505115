-- ===== src/Tests/Codec.antt =====
-- src/search/codec.rs on concrete inputs.
use kevindb.Base.{
  ℕ, zero, suc, ◌+◌, ◌*◌, ◌^◌, ◌≤◌, ◌<◌, ◌≡◌, refl, arith, Bool, none, some, List, [], ◌∷◌, All,
  length, ltb, if◌then◌else◌,
}
use kevindb.Base.Maps.{lookup, contains}
use kevindb.Base.Result.{ok, err}
use kevindb.Codec.Types.{Bytes, IsU32, SearchIndex, truncated_byte}
use kevindb.Codec.Packing.{pack_bits, unpack_bits, bit_width, leading_zeros, pack_loop, drain}
use kevindb.Codec.Write.{
  put_vint, put_vint_loop, put_u32, put_u64, put_bytes, put_range, checked_u32,
}
use kevindb.Codec.Packing.RoundTrip.{unpack_bits-pack_bits}
use kevindb.Codec.U32List.{
  encode_u32_list, decode_u32_list, encode_tail, encode_blocks, read_u32_list, read_blocks,
  read_tail,
}
use kevindb.Codec.U32List.RoundTrip.{Ascending, decode_u32_list-encode_u32_list}
use kevindb.Codec.Positions.{encode_positions, put_positions, decode_positions, positions_of}
use kevindb.Codec.Positions.RoundTrip.{decode_positions-encode_positions}
use kevindb.Codec.Index.{encode_search_index, decode_search_index, put_bodies}
use kevindb.Codec.Directory.{
  prepare_groups, new_group, encoded_directory_len, place_groups, place_group, next_range,
  encode_directory, put_entries, put_entry,
}
use kevindb.Codec.TermInfos.{encode_term_infos, encode_search_term_infos, put_term_infos}
use kevindb.Codec.Reader.{read_vint, read_vint_loop, read_u8, expect_done}
use kevindb.Codec.U32List.Safety.{decode_u32_list-bounds}
use kevindb.Codec.Index.RoundTrip.{decode_search_index-encode_search_index}

-- As in the test of codec.rs, every third number, more than two blocks of them.
abbrev thirds : ℕ → ℕ → List ℕ
thirds zero from = []
thirds (suc n) from = from ∷ thirds n (from + 3)

thirds-Ascending : (n p from : ℕ) → p ≤ from → Ascending p (thirds n from)
thirds-Ascending zero p from h = tt
thirds-Ascending (suc n) p from h = (h, thirds-Ascending n from (from + 3) (omega arith))

thirds-IsU32 : (n from : ℕ) → from + 3 * n < 2 ^ 32 → All IsU32 (thirds n from)
thirds-IsU32 zero from h = tt
thirds-IsU32 (suc n) from h = (omega arith, thirds-IsU32 n (from + 3) (omega arith))

encoded_size : length (encode_u32_list (thirds 300 0)) ≡ 2 * (1 + 32) + 44
unfolding encode_u32_list encode_tail put_vint put_vint_loop encode_blocks pack_bits bit_width
    leading_zeros pack_loop drain
encoded_size = refl

decode_u32_list-encode_u32_list_example :
    decode_u32_list (encode_u32_list (thirds 300 0)) 300 ≡ ok (thirds 300 0)
decode_u32_list-encode_u32_list_example =
    decode_u32_list-encode_u32_list (thirds 300 0) (thirds-Ascending 300 0 0 (omega arith))
      (thirds-IsU32 300 0 (omega arith)) (omega (arith, encoded_size))

unpack_bits-pack_bits_example :
    unpack_bits (pack_bits (5 ∷ 0 ∷ 7 ∷ 2 ∷ []) 3 []) 4 3 ≡ ok (5 ∷ 0 ∷ 7 ∷ 2 ∷ [])
unpack_bits-pack_bits_example =
    unpack_bits-pack_bits (5 ∷ 0 ∷ 7 ∷ 2 ∷ []) 3 (omega arith) (omega arith)

abbrev two_rows : List (ℕ × List ℕ)
two_rows = (3, 0 ∷ 4 ∷ []) ∷ (9, 200 ∷ []) ∷ []

positions_size : length (encode_positions (3 ∷ 9 ∷ []) two_rows) ≡ 6
unfolding encode_positions put_positions encode_u32_list encode_tail put_vint put_vint_loop
    encode_blocks
positions_size = refl

decode_positions-encode_positions_example :
    (d : List (ℕ × List ℕ)) × (decode_positions
        (encode_positions (3 ∷ 9 ∷ []) two_rows)
        (3 ∷ 9 ∷ [])
      ≡ ok d)
    × ((row : ℕ)
        → lookup row d
          ≡ (if contains row (3 ∷ 9 ∷ []) then some (positions_of two_rows row) else none))
decode_positions-encode_positions_example =
    decode_positions-encode_positions (3 ∷ 9 ∷ []) two_rows (omega arith)
      (omega (arith, positions_size))

-- An index of one key group with one term.
abbrev sample : SearchIndex
sample = record {
  row_count = 2;
  term_key_groups =
      (record {
        min_term = b'k' ∷ [];
        max_term = b'k' ∷ [];
        fst_bytes = 9 ∷ [];
        term_infos =
            (record {
              doc_count = 1;
              postings_offset = 0;
              postings_len = 1;
              positions_offset = 0;
              positions_len = 0;
            })
            ∷ [];
        postings = 1 ∷ [];
        positions = [];
      })
      ∷ [];
  term_value_groups = [];
}

abbrev sample_bytes : Bytes
sample_bytes =
    75 ∷ 68 ∷ 66 ∷ 70 ∷ 84 ∷ 83 ∷ 51 ∷ 0 ∷ 2 ∷ 0 ∷ 0 ∷ 0 ∷ 1 ∷ 0 ∷ 0 ∷ 0 ∷ 0 ∷ 0 ∷ 0 ∷ 0 ∷ 78 ∷ 0
    ∷ 0 ∷ 0 ∷ 1 ∷ 0 ∷ 0 ∷ 0 ∷ 107 ∷ 1 ∷ 0 ∷ 0 ∷ 0 ∷ 107 ∷ 1 ∷ 0 ∷ 0 ∷ 0 ∷ 102 ∷ 0 ∷ 0 ∷ 0 ∷ 0 ∷ 0
    ∷ 0 ∷ 0 ∷ 1 ∷ 0 ∷ 0 ∷ 0 ∷ 0 ∷ 0 ∷ 0 ∷ 0 ∷ 103 ∷ 0 ∷ 0 ∷ 0 ∷ 0 ∷ 0 ∷ 0 ∷ 0 ∷ 20 ∷ 0 ∷ 0 ∷ 0 ∷ 0
    ∷ 0 ∷ 0 ∷ 0 ∷ 123 ∷ 0 ∷ 0 ∷ 0 ∷ 0 ∷ 0 ∷ 0 ∷ 0 ∷ 1 ∷ 0 ∷ 0 ∷ 0 ∷ 0 ∷ 0 ∷ 0 ∷ 0 ∷ 124 ∷ 0 ∷ 0 ∷ 0
    ∷ 0 ∷ 0 ∷ 0 ∷ 0 ∷ 0 ∷ 0 ∷ 0 ∷ 0 ∷ 0 ∷ 0 ∷ 0 ∷ 0 ∷ 9 ∷ 1 ∷ 0 ∷ 0 ∷ 0 ∷ 0 ∷ 0 ∷ 0 ∷ 0 ∷ 1 ∷ 0 ∷ 0
    ∷ 0 ∷ 0 ∷ 0 ∷ 0 ∷ 0 ∷ 0 ∷ 0 ∷ 0 ∷ 0 ∷ 1 ∷ []

sample_encoded : encode_search_index sample ≡ ok sample_bytes
unfolding encode_search_index prepare_groups new_group checked_u32 encoded_directory_len
    place_groups place_group next_range encode_directory put_entries put_entry put_bytes put_u32
    put_u64 put_range encode_term_infos encode_search_term_infos put_term_infos put_bodies
sample_encoded = refl

-- The fst crate's test, here that some byte is there.
abbrev nonempty : Bytes → Bool
nonempty bytes = ltb 0 (length bytes)

decode_search_index-encode_search_index_example :
    decode_search_index nonempty sample_bytes ≡ ok sample
decode_search_index-encode_search_index_example =
    decode_search_index-encode_search_index nonempty sample
      (record {
        row_count = omega arith;
        key_groups = (
          record {
            fst = refl;
            term_infos = (
              record {
                doc_count = omega arith;
                postings_offset = omega arith;
                postings_len = omega arith;
                positions_offset = omega arith;
                positions_len = omega arith;
              },
              tt,
            );
          },
          tt,
        );
        value_groups = tt;
      })
      sample_encoded (omega arith)

abbrev three_five : List ℕ
three_five = 3 ∷ 5 ∷ []

-- Two vints, 3 and 2, as differences.
two_values : decode_u32_list (3 ∷ 2 ∷ []) 2 ≡ ok three_five
unfolding decode_u32_list read_u32_list read_blocks read_tail read_vint read_vint_loop read_u8
    expect_done
two_values = refl

cut_short : decode_u32_list (3 ∷ []) 2 ≡ err truncated_byte
unfolding decode_u32_list read_u32_list read_blocks read_tail read_vint read_vint_loop read_u8
cut_short = refl

decode_u32_list-bounds_example :
    (length three_five ≡ 2) × Ascending 0 three_five × All IsU32 three_five
decode_u32_list-bounds_example = decode_u32_list-bounds (3 ∷ 2 ∷ []) 2 two_values
