-- ===== src/Codec/U32List/Safety.antt =====
-- The list decoder on bytes of any origin.
use kevindb.Base.{
  ℕ, zero, suc, ◌+◌, ◌*◌, ◌/◌, ◌%◌, ◌≤◌, ◌≡◌, refl, sym, ◌∙◌, ap, subst, arith, inl, inr, List, [],
  ◌∷◌, ◌++◌, All, All-append, length, length-append, Bool-cases, ltb, ◌==◌,
}
use kevindb.Base.Result.{Result, ok, err, >>=-eq_ok}
use kevindb.Codec.Types.{Bytes, Error, IsU32, block_len}
use kevindb.Codec.Packing.{Unpacker, fill, unpack_loop, unpack_bits, zeros}
use kevindb.Codec.Reader.{
  ByteReader, Reader, continue, lift, new_reader, read_u8, read_slice, read_vint, expect_done,
  result,
}
use kevindb.Codec.U32List.{
  Decoded, saturating_add, push_delta, push_deltas, read_blocks, read_tail, read_u32_list,
  decode_u32_list,
}
use kevindb.Codec.U32List.RoundTrip.{Ascending}

continue-eq_ok {ℓ κ} :
    {A : Type ℓ} {B : Type κ} (f : A → Reader B) (m : Result Error (A × ByteReader))
    {b : B × ByteReader}
    → continue f m ≡ ok b
    → (a : A) × (r : ByteReader) × (m ≡ ok (a, r)) × (f a r ≡ ok b)
continue-eq_ok f (ok (a, r)) h = (a, r, refl, h)
continue-eq_ok f (err e) h = cc

result-eq_ok {ℓ} :
    {A B : Type ℓ} (m : Result Error (A × B)) {a : A} → result m ≡ ok a → (b : B) × (m ≡ ok (a, b))
result-eq_ok (ok (x, b)) {a} h = let e : x ≡ a = cc in (b, ap (λ t. ok (t, b)) e)
result-eq_ok (err e) h = cc

ok-injective :
    {a b : List ℕ} {r s : ByteReader}
    → ◌≡◌ {A = Result Error (List ℕ × ByteReader)} (ok (a, r)) (ok (b, s))
    → a ≡ b
ok-injective e = cc

length-zeros : (n : ℕ) → length (zeros n) ≡ n
length-zeros zero = refl
length-zeros (suc n) = ap suc (length-zeros n)

length-unpack_loop :
    (count : ℕ) (bytes : Bytes) (w : ℕ) (u : Unpacker) {vs : List ℕ}
    → unpack_loop count bytes w u ≡ ok vs
    → length vs ≡ count
unfolding unpack_loop
length-unpack_loop zero bytes w u {vs} h = let e : vs ≡ [] = cc in rw e
length-unpack_loop (suc count) bytes w u {vs} h =
    let (u', filled, h1) = >>=-eq_ok (fill w bytes w u) _ h in
    let (rest, unpacked, h2) = >>=-eq_ok (unpack_loop count bytes w _) _ h1 in
    let n = length-unpack_loop count bytes w _ unpacked in ap length (sym (ok_values h2)) ∙ ap suc n
  where
    ok_values : {a b : List ℕ} → ◌≡◌ {A = Result Error (List ℕ)} (ok a) (ok b) → a ≡ b
    ok_values e = cc

length-unpack_bits :
    (bytes : Bytes) (count w : ℕ) {vs : List ℕ}
    → unpack_bits bytes count w ≡ ok vs
    → length vs ≡ count
unfolding unpack_bits
length-unpack_bits bytes count w {vs} h = elim (Bool-cases (ltb 32 w)) [
  | inl wide ↦ absurd (never (rw wide at h))
  | inr narrow ↦ elim (Bool-cases (w == 0)) [
    | inl none ↦ zero_case (rw (narrow, none) at h)
    | inr some ↦ length-unpack_loop count bytes w _ (rw (narrow, some) at h)
  ]
]
  where
    never : {e : Error} {b : List ℕ} → ◌≡◌ {A = Result Error (List ℕ)} (err e) (ok b) → ⊥
    never e = cc

    zero_case : ◌≡◌ {A = Result Error (List ℕ)} (ok (zeros count)) (ok vs) → length vs ≡ count
    zero_case e = let same : vs ≡ zeros count = cc in rw same (length-zeros count)

-- What the decoder's variables satisfy throughout.
pub record IsDecoded (n : ℕ) (d : Decoded) : Type 0 where
  pub previous : IsU32 d.0
  pub ascending : Ascending 0 d.1
  pub bounded : All (λ v. v ≤ d.0) d.1
  pub values : All IsU32 d.1
  pub count : length d.1 ≡ n

Ascending-append :
    (p x : ℕ) (vs : List ℕ)
    → p ≤ x
    → Ascending p vs
    → All (λ v. v ≤ x) vs
    → Ascending p (vs ++ (x ∷ []))
Ascending-append p x [] h a b = (h, tt)
Ascending-append p x (v ∷ vs) h a b = (a.0, Ascending-append v x vs b.0 a.1 b.1)

All-le : (x y : ℕ) (vs : List ℕ) → x ≤ y → All (λ v. v ≤ x) vs → All (λ v. v ≤ y) vs
All-le x y [] h a = tt
All-le x y (v ∷ vs) h a = (omega (arith, a.0), All-le x y vs h a.1)

push_delta-IsDecoded : (n x : ℕ) (d : Decoded) → IsDecoded n d → IsDecoded (suc n) (push_delta d x)
push_delta-IsDecoded n x (p, vs) h =
    let next = saturating_add p x in
    let up : p ≤ next = omega (arith, h.previous) in
    let bounds = All-le p next vs up h.bounded in
    record {
      previous = omega arith;
      ascending = Ascending-append 0 next vs (omega arith) h.ascending bounds;
      bounded = All-append (λ v. v ≤ next) vs (next ∷ []) bounds (omega arith, tt);
      values = All-append IsU32 vs (next ∷ []) h.values (omega arith, tt);
      count = omega (arith, length-append vs (next ∷ []), h.count);
    }

push_deltas-IsDecoded :
    (xs : List ℕ) (n : ℕ) (d : Decoded)
    → IsDecoded n d
    → IsDecoded (n + length xs) (push_deltas xs d)
push_deltas-IsDecoded [] n d h = let e : n + 0 ≡ n = omega arith in rw e h
push_deltas-IsDecoded (x ∷ xs) n d h =
    let e : n + suc (length xs) ≡ suc n + length xs = omega arith in
    rw e (push_deltas-IsDecoded xs (suc n) (push_delta d x) (push_delta-IsDecoded n x d h))

module _ {d' : Decoded} {r' : ByteReader} where
  done :
      {n : ℕ} (d : Decoded) (r : ByteReader)
      → ◌≡◌ {A = Result Error (Decoded × ByteReader)} (ok (d, r)) (ok (d', r'))
      → IsDecoded n d
      → IsDecoded n d'
  done {n} d r e h = let same : d ≡ d' = cc in subst (IsDecoded n) same h

  read_blocks-IsDecoded :
      (k n : ℕ) (d : Decoded) (r : ByteReader)
      → IsDecoded n d
      → read_blocks k d r ≡ ok (d', r')
      → IsDecoded (n + k * block_len) d'
  unfolding read_blocks
  read_blocks-IsDecoded zero n d r h e =
      let same : n + 0 * block_len ≡ n = omega arith in rw same (done d r e h)
  read_blocks-IsDecoded (suc k) n d r h e =
      let (w, r1, a1, e1) = continue-eq_ok _ (read_u8 r) e in
      let (packed, r2, a2, e2) = continue-eq_ok _ (read_slice _ r1) e1 in
      let (xs, r3, a3, e3) = continue-eq_ok _ (lift (unpack_bits packed block_len w) r2) e2 in
      let size : length xs ≡ block_len = length-unpack_bits packed block_len w (lift_ok _ r2 a3) in
      let total : n + suc k * block_len ≡ n + length xs + k * block_len = omega (arith, size) in
      rw total (
        read_blocks-IsDecoded k (n + length xs) (push_deltas xs d) r3
          (push_deltas-IsDecoded xs n d h) e3)
    where
      lift_ok :
          (m : Result Error (List ℕ)) (s : ByteReader) {xs : List ℕ} {t : ByteReader}
          → lift m s ≡ ok (xs, t)
          → m ≡ ok xs
      lift_ok (ok ys) s q = let same : ◌≡◌ {A = List ℕ} _ _ = cc q in ap ok same
      lift_ok (err x) s q = cc

  read_tail-IsDecoded :
      (k n : ℕ) (d : Decoded) (r : ByteReader)
      → IsDecoded n d
      → read_tail k d r ≡ ok (d', r')
      → IsDecoded (n + k) d'
  unfolding read_tail
  read_tail-IsDecoded zero n d r h e = let same : n + 0 ≡ n = omega arith in rw same (done d r e h)
  read_tail-IsDecoded (suc k) n d r h e =
      let (x, r1, a1, e1) = continue-eq_ok _ (read_vint r) e in
      let total : n + suc k ≡ suc n + k = omega arith in
      rw total (read_tail-IsDecoded k (suc n) (push_delta d x) r1 (push_delta-IsDecoded n x d h) e1)

-- Any outcome but an error is a list of `count` values, ascending and in range.
pub decode_u32_list-bounds :
    (bytes : Bytes) (count : ℕ) {vs : List ℕ}
    → decode_u32_list bytes count ≡ ok vs
    → (length vs ≡ count) × Ascending 0 vs × All IsU32 vs
unfolding decode_u32_list read_u32_list
decode_u32_list-bounds bytes count {vs} h =
    let start : IsDecoded 0 (0, []) = record {
      previous = omega arith;
      ascending = tt;
      bounded = tt;
      values = tt;
      count = refl;
    } in
    let (r0, h0) = result-eq_ok _ h in
    let (ws, r1, a1, h1) = continue-eq_ok _ (read_u32_list count (new_reader bytes)) h0 in
    let (d, r2, a2, h2) =
      continue-eq_ok _ (read_blocks (count / block_len) (0, []) (new_reader bytes)) a1 in
    let (d', r3, a3, h3) = continue-eq_ok _ (read_tail (count % block_len) d r2) h2 in
    let (u, r4, a4, h4) = continue-eq_ok _ (expect_done r1) h1 in
    let blocks = read_blocks-IsDecoded (count / block_len) 0 (0, []) (new_reader bytes) start a2 in
    let all =
      read_tail-IsDecoded (count % block_len) (0 + count / block_len * block_len) d r2 blocks a3 in
    let values : d'.1 ≡ ws = ok-injective h3 in
    let same : d'.1 ≡ vs = values ∙ ok-injective h4 in
    let total : 0 + count / block_len * block_len + count % block_len ≡ count = omega arith in
    (
      ap length (sym same) ∙ all.count ∙ total,
      subst (Ascending 0) same all.ascending,
      subst (All IsU32) same all.values,
    )
