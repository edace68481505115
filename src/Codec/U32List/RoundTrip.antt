-- ===== src/Codec/U32List/RoundTrip.antt =====
-- The list decoder on an encoded list.
use kevindb.Base.{
  ℕ, zero, suc, ◌+◌, ◌-◌, ◌*◌, ◌/◌, ◌%◌, ◌^◌, ◌≤◌, ◌<◌, ◌≡◌, refl, sym, ◌∙◌, ap, subst, arith, List,
  [], ◌∷◌, ◌++◌, append_assoc, append-nil, All, length, take, drop, drop-drop, length-drop,
  length-take, All-take, All-drop, take-append-drop,
}
use kevindb.Base.Result.{ok}
use kevindb.Codec.Types.{Bytes, IsU32, block_len, u64_mod}
use kevindb.Codec.Packing.{unpack_bits, packed_len}
use kevindb.Codec.Packing.RoundTrip.{block, length-block, unpack_bits-block}
use kevindb.Codec.Reader.{pure}
use kevindb.Codec.Reader.Laws.{
  Reads, Reads-pure, Reads-bind, Reads-read_u8, Reads-read_slice_of, Reads-read_vint, Reads-new,
  expect_done-reader_at,
}
use kevindb.Codec.U32List.{
  deltas_from, encode_u32_list, Decoded, saturating_add, push_delta, push_deltas, read_blocks,
  read_tail, read_u32_list, decode_u32_list,
}
use kevindb.Codec.U32List.Encode.{
  width_of, blocks_bytes, tail_bytes, width_of-Fits, encode_tail-tail_bytes,
  encode_blocks-blocks_bytes,
}

-- Each value is at least the one before it, the first at least `previous`.
abbrev pub Ascending : ℕ → List ℕ → Type 0
Ascending previous [] = Unit {0}
Ascending previous (v ∷ vs) = (previous ≤ v) × Ascending v vs

length-deltas_from : (p : ℕ) (vs : List ℕ) → length (deltas_from p vs) ≡ length vs
length-deltas_from p [] = refl
length-deltas_from p (v ∷ vs) = ap suc (length-deltas_from v vs)

deltas_from-IsU32 : (p : ℕ) (vs : List ℕ) → All IsU32 vs → All IsU32 (deltas_from p vs)
deltas_from-IsU32 p [] h = tt
deltas_from-IsU32 p (v ∷ vs) h = (omega (arith, h.0), deltas_from-IsU32 v vs h.1)

-- Adding up the differences of an ascending list never saturates.
push_deltas-deltas_from :
    (vs : List ℕ) (p : ℕ) (acc : List ℕ)
    → Ascending p vs
    → All IsU32 vs
    → (push_deltas (deltas_from p vs) (p, acc)).1 ≡ acc ++ vs
push_deltas-deltas_from [] p acc h k = sym (append-nil acc)
push_deltas-deltas_from (v ∷ vs) p acc h k =
    let e : saturating_add p (v - p) ≡ v = omega (arith, h.0, k.0) in
    ap {A = ℕ} (λ n. (push_deltas (deltas_from v vs) (n, acc ++ (n ∷ []))).1) e
    ∙ push_deltas-deltas_from vs v (acc ++ (v ∷ [])) h.1 k.1
    ∙ append_assoc acc (v ∷ []) vs

push_deltas-append :
    (xs ys : List ℕ) (d : Decoded) → push_deltas (xs ++ ys) d ≡ push_deltas ys (push_deltas xs d)
push_deltas-append [] ys d = refl
push_deltas-append (x ∷ xs) ys d = push_deltas-append xs ys (push_delta d x)

abbrev after_blocks : ℕ → List ℕ → Decoded → Decoded
after_blocks zero ds d = d
after_blocks (suc k) ds d = after_blocks k (drop block_len ds) (push_deltas (take block_len ds) d)

push_deltas-after_blocks :
    (k : ℕ) (ds : List ℕ) (d : Decoded)
    → push_deltas (drop (k * block_len) ds) (after_blocks k ds d) ≡ push_deltas ds d
push_deltas-after_blocks zero ds d = refl
push_deltas-after_blocks (suc k) ds d =
    let m : suc k * block_len ≡ block_len + k * block_len = omega arith in
    rw (m, ← drop-drop block_len (k * block_len) ds)
      (push_deltas-after_blocks k (drop block_len ds) (push_deltas (take block_len ds) d)
        ∙ sym (push_deltas-append (take block_len ds) (drop block_len ds) d)
        ∙ ap (λ l. push_deltas l d) (take-append-drop block_len ds))

Reads-read_blocks :
    (k : ℕ) (ds : List ℕ) (d : Decoded)
    → k * block_len ≤ length ds
    → All IsU32 ds
    → Reads (read_blocks k d) (blocks_bytes k ds) (after_blocks k ds d)
unfolding read_blocks
Reads-read_blocks zero ds d h u = Reads-pure d
Reads-read_blocks (suc k) ds d h u =
    let here = take block_len ds in
    let w = width_of here in
    let n : length here ≡ block_len = length-take block_len ds (omega (arith, h)) in
    let (small, fits) = width_of-Fits here (All-take IsU32 block_len ds u) in
    let room : length here * w < u64_mod = rw n (omega (arith, small)) in
    let size : packed_len block_len w ≡ length (block here w) =
      subst (λ m. packed_len m w ≡ length (block here w)) n (sym (length-block here w room)) in
    let unpacked : unpack_bits (block here w) block_len w ≡ ok here =
      subst (λ m. unpack_bits (block here w) m w ≡ ok here) n
        (unpack_bits-block here w fits small) in
    Reads-bind _ _ (Reads-read_u8 w) (
      Reads-bind _ _ (Reads-read_slice_of (block here w) (packed_len block_len w) size) (
        rw unpacked (
          Reads-read_blocks k (drop block_len ds) (push_deltas here d)
            (omega (arith, h, length-drop block_len ds)) (All-drop IsU32 block_len ds u))))

Reads-read_tail :
    (ds : List ℕ) (d : Decoded)
    → All IsU32 ds
    → Reads (read_tail (length ds) d) (tail_bytes ds) (push_deltas ds d)
unfolding read_tail
Reads-read_tail [] d u = Reads-pure d
Reads-read_tail (x ∷ ds) d u =
    Reads-bind _ _ (Reads-read_vint x u.0) (Reads-read_tail ds (push_delta d x) u.1)

abbrev list_bytes : List ℕ → Bytes
list_bytes ds =
    let full = length ds / block_len in
    blocks_bytes full ds ++ tail_bytes (drop (full * block_len) ds)

encode_u32_list-list_bytes :
    (vs : List ℕ) → All IsU32 vs → encode_u32_list vs ≡ list_bytes (deltas_from 0 vs)
unfolding encode_u32_list
encode_u32_list-list_bytes vs u =
    let ds = deltas_from 0 vs in
    let full = length ds / block_len in
    let start : 0 * block_len ≡ 0 = refl in
    encode_tail-tail_bytes (drop (full * block_len) ds) _
    ∙ ap (λ l. l ++ tail_bytes (drop (full * block_len) ds))
        (encode_blocks-blocks_bytes full 0 ds [] (deltas_from-IsU32 0 vs u))

-- Wherever it stands, an encoded list is read back, and nothing behind it is touched.
pub Reads-read_u32_list :
    (vs : List ℕ)
    → Ascending 0 vs
    → All IsU32 vs
    → Reads (read_u32_list (length vs)) (encode_u32_list vs) vs
unfolding read_u32_list
Reads-read_u32_list vs h u =
    let ds = deltas_from 0 vs in
    let full = length vs / block_len in
    let count : length ds ≡ length vs = length-deltas_from 0 vs in
    let tail = drop (full * block_len) ds in
    let last : length tail ≡ length vs % block_len =
      omega (arith, length-drop (full * block_len) ds, count) in
    let v32 = deltas_from-IsU32 0 vs u in
    let value : (push_deltas tail (after_blocks full ds (0, []))).1 ≡ vs =
      ap (λ (d : Decoded). d.1) (push_deltas-after_blocks full ds (0, []))
      ∙ push_deltas-deltas_from vs 0 [] h u in
    rw (encode_u32_list-list_bytes vs u, count, ← append-nil (tail_bytes tail), ← last)
      (Reads-bind _ _ (Reads-read_blocks full ds (0, []) (omega (arith, count)) v32) (
        Reads-bind _ _ (Reads-read_tail tail _ (All-drop IsU32 (full * block_len) ds v32)) (
          subst (λ a. Reads (pure (push_deltas tail (after_blocks full ds (0, []))).1) [] a) value
            (Reads-pure _))))

-- The codec's round trip.
pub decode_u32_list-encode_u32_list :
    (vs : List ℕ)
    → Ascending 0 vs
    → All IsU32 vs
    → length (encode_u32_list vs) < 2 ^ 64
    → decode_u32_list (encode_u32_list vs) (length vs) ≡ ok vs
unfolding decode_u32_list
decode_u32_list-encode_u32_list vs h u fits = rw (
  Reads-new (encode_u32_list vs) vs (Reads-read_u32_list vs h u) fits,
  expect_done-reader_at (encode_u32_list vs),
)
