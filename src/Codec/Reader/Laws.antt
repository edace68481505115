-- ===== src/Codec/Reader/Laws.antt =====
-- What an action of the reader takes from the bytes before it, and how such facts compose.
use Prim.Native.Nat.{bit_or}
use kevindb.Base.{
  ℕ, zero, suc, ◌+◌, ◌-◌, ◌*◌, ◌/◌, ◌%◌, ◌^◌, ◌≤◌, ◌<◌, ◌≡◌, refl, sym, ap, ◌∙◌, subst, arith, true,
  false, inl, inr, some, List, All, [], ◌∷◌, ◌++◌, append_assoc, append-nil, ltb, leb, length,
  get_elem?, slice, length-append, take-append, drop-append, Bool-cases, leb→le, ltb→lt, ==_iff,
}
use native.Mathlib.Nat.{div-add-mod}
use kevindb.Base.Bits.{bit_or-shift, bit_and-seven_low, bit_and-top}
use kevindb.Base.Pow.{two_pow-add, two_pow_mono}
use kevindb.Base.Result.{ok}
use kevindb.Codec.Types.{Bytes, IsU32, u32_mod, u64_mod, SearchIndexRange, IsU64}
use kevindb.Codec.Write.{to_le_bytes, from_le_bytes}
use kevindb.Codec.Write.Laws.{length-to_le_bytes, from_le_bytes-to_le_bytes, vint_bytes}
use kevindb.Codec.Reader.{
  new_reader, ByteReader, Reader, ◌>>=◌, pure, read_slice, read_u8, read_u32, read_u64, read_vec,
  read_range, read_vint_loop, read_vint, bytes_eq, expect_bytes, expect_done, read_times,
}

-- A reader that stands behind `pre`.
abbrev pub reader_at : Bytes → Bytes → ByteReader
reader_at pre rest = record { bytes = pre ++ rest; offset = length pre }

-- Wherever it stands, `m` takes exactly the bytes `x` and returns `a`.
pub record Reads {ℓ} {A : Type ℓ} (m : Reader A) (x : Bytes) (a : A) : Type ℓ where
  pub at :
      (pre rest : Bytes)
      → length (pre ++ (x ++ rest)) < u64_mod
      → m (reader_at pre (x ++ rest)) ≡ ok (a, reader_at (pre ++ x) rest)

pub Reads-pure {ℓ} : {A : Type ℓ} (a : A) → Reads (pure a) [] a
Reads-pure a = record { at = λ pre rest h. rw append-nil }

pub Reads-bind {ℓ κ} :
    {A : Type ℓ} {B : Type κ} (m : Reader A) (f : A → Reader B) {x y : Bytes} {a : A} {b : B}
    → Reads m x a
    → Reads (f a) y b
    → Reads (m >>= f) (x ++ y) b
Reads-bind m f {x = x} {y = y} {a = a} hm hf = record {
  at = λ pre rest h. rw (append_assoc x y rest) (
      rw
        (hm.at pre (y ++ rest) (subst (λ l. length (pre ++ l) < u64_mod) (append_assoc x y rest) h))
        (hf.at (pre ++ x) rest (
            subst (λ l. length l < u64_mod) (sym (append_assoc pre x (y ++ rest)))
              (subst (λ l. length (pre ++ l) < u64_mod) (append_assoc x y rest) h))
          ∙ rw (append_assoc pre x y)));
}

length_bound :
    (pre x rest : Bytes) → length (pre ++ (x ++ rest)) ≡ length pre + length x + length rest
length_bound pre x rest = omega (arith, length-append pre (x ++ rest), length-append x rest)

pub slice-middle :
    (pre x rest : Bytes) → slice (length pre) (length pre + length x) (pre ++ (x ++ rest)) ≡ x
slice-middle pre x rest =
    let e : length pre + length x - length pre ≡ length x = omega arith in
    rw (e, drop-append pre (x ++ rest)) (take-append x rest)

below→leb : (a b : ℕ) → a < b → leb b a ≡ false
below→leb a b h = ground arith

le→ltb : (a b : ℕ) → b ≤ a → ltb a b ≡ false
le→ltb a b h = ground arith

pub Reads-read_slice : (x : Bytes) → Reads (read_slice (length x)) x x
unfolding read_slice
Reads-read_slice x = record {
  at = λ pre rest h.
      rw
        (
          below→leb (length pre + length x) u64_mod (omega (arith, length_bound pre x rest)),
          le→ltb (length (pre ++ (x ++ rest))) (length pre + length x)
              (omega (arith, length_bound pre x rest)),
        )
        (rw (slice-middle pre x rest, append_assoc pre x rest, length-append pre x));
}

-- A slice whose length was read from the file.
pub Reads-read_slice_of : (x : Bytes) (n : ℕ) → n ≡ length x → Reads (read_slice n) x x
Reads-read_slice_of x n e = rw e (Reads-read_slice x)

get_elem?-behind : (pre rest : Bytes) (b : ℕ) → get_elem? (pre ++ b ∷ rest) (length pre) ≡ some b
get_elem?-behind [] rest b = refl
get_elem?-behind (a ∷ pre) rest b = get_elem?-behind pre rest b

pub Reads-read_u8 : (b : ℕ) → Reads read_u8 (b ∷ []) b
unfolding read_u8
Reads-read_u8 b = record {
  at = λ pre rest h.
      rw (get_elem?-behind pre rest b, append_assoc pre (b ∷ []) rest, length-append pre (b ∷ []));
}

Reads-word :
    (n value : ℕ)
    → value < 256 ^ n
    → Reads (do bytes ← read_slice n; pure (from_le_bytes bytes)) (to_le_bytes n value) value
Reads-word n value h =
    subst (λ x. Reads (do bytes ← read_slice n; pure (from_le_bytes bytes)) x value)
      (append-nil (to_le_bytes n value))
      (Reads-bind _ _
        (Reads-read_slice_of (to_le_bytes n value) n (sym (length-to_le_bytes n value)))
        (rw (from_le_bytes-to_le_bytes n value h) (Reads-pure value)))

pub Reads-read_u32 : (value : ℕ) → IsU32 value → Reads read_u32 (to_le_bytes 4 value) value
unfolding read_u32
Reads-read_u32 value h = Reads-word 4 value h

pub Reads-read_u64 : (value : ℕ) → IsU64 value → Reads read_u64 (to_le_bytes 8 value) value
unfolding read_u64
Reads-read_u64 value h = Reads-word 8 value h

-- A word in front of `len` bytes, as `put_bytes` writes it.
pub Reads-read_vec :
    (x : Bytes) → IsU32 (length x) → Reads read_vec (to_le_bytes 4 (length x) ++ x) x
unfolding read_vec
Reads-read_vec x h = Reads-bind _ _ (Reads-read_u32 (length x) h) (Reads-read_slice x)

pub Reads-read_range :
    (r : SearchIndexRange)
    → IsU64 r.offset
    → IsU64 r.len
    → Reads read_range (to_le_bytes 8 r.offset ++ (to_le_bytes 8 r.len ++ [])) r
unfolding read_range
Reads-read_range r ho hl =
    Reads-bind _ _ (Reads-read_u64 r.offset ho)
      (Reads-bind _ _ (Reads-read_u64 r.len hl) (Reads-pure r))

or_group :
    (acc g shift : ℕ)
    → acc < 2 ^ shift
    → g * 2 ^ shift < 2 ^ 32
    → bit_or acc (g * 2 ^ shift % u32_mod) ≡ acc + g * 2 ^ shift
or_group acc g shift ha h = ground (arith, bit_or-shift shift g acc)

-- The last byte of a vint.
read_vint_last :
    (k v acc shift : ℕ)
    → v < 128
    → acc < 2 ^ shift
    → acc + v * 2 ^ shift < 2 ^ 32
    → Reads (read_vint_loop (suc k) acc shift) (v ∷ []) (acc + v * 2 ^ shift)
unfolding read_vint_loop
read_vint_last k v acc shift hv ha h = Reads-bind read_u8 _ (Reads-read_u8 v) (
    let low : v % 128 ≡ v = omega arith in
    let top : v / 128 * 128 ≡ 0 = omega arith in
    rw
      (
        bit_and-seven_low v (omega arith),
        bit_and-top v (omega arith),
        top,
        low,
        or_group acc v shift ha (omega arith),
      )
      (Reads-pure _))

-- A byte of a vint with more behind it.
read_vint_more :
    (k g acc shift a : ℕ) (y : Bytes)
    → g < 128
    → acc < 2 ^ shift
    → g * 2 ^ shift < 2 ^ 32
    → shift + 7 < 32
    → Reads (read_vint_loop k (acc + g * 2 ^ shift) (shift + 7)) y a
    → Reads (read_vint_loop (suc k) acc shift) ((g + 128) ∷ y) a
unfolding read_vint_loop
read_vint_more k g acc shift a y hg ha h hs r = Reads-bind read_u8 _ (Reads-read_u8 (g + 128)) (
    let low : (g + 128) % 128 ≡ g = omega arith in
    let top : (g + 128) / 128 * 128 ≡ 128 = omega arith in
    let next : leb 32 (shift + 7) ≡ false = below→leb (shift + 7) 32 hs in
    rw
      (
        bit_and-seven_low (g + 128) (omega arith),
        bit_and-top (g + 128) (omega arith),
        top,
        low,
        next,
        or_group acc g shift ha h,
      )
      r)

seven_more : (s : ℕ) → 2 ^ (s + 7) ≡ 128 * 2 ^ s
seven_more s = omega (arith, two_pow-add s 7)

-- A value is its low group of seven bits and, seven bits further up, the groups above.
groups_sum : (s v acc : ℕ) → acc + v * 2 ^ s ≡ acc + v % 128 * 2 ^ s + v / 128 * 2 ^ (s + 7)
groups_sum s v acc =
    let scaled = ap (λ (x : ℕ). x * 2 ^ s) (div-add-mod v 128) in
    let upper = ap (λ (x : ℕ). v / 128 * x) (seven_more s) in omega (arith, upper, scaled)

-- A value with more than one group is at least `2 ^ (s + 7)` when shifted by `s`.
more_shift : (w s : ℕ) → 128 ≤ w → w * 2 ^ s < 2 ^ 32 → s + 7 < 32
more_shift w s hw h = elim (Bool-cases (ltb (s + 7) 32)) [
  | inl e ↦ ltb→lt _ _ e
  | inr e ↦ absurd (grind (arith, two_pow_mono 32 (s + 7) (ground arith), seven_more s))
]

low_group_fits : (acc w s : ℕ) → acc < 2 ^ s → acc + w % 128 * 2 ^ s < 2 ^ (s + 7)
low_group_fits acc w s h =
    let m : w % 128 ≤ 127 = omega arith in
    let p : w % 128 * 2 ^ s ≤ 127 * 2 ^ s = grind arith in omega (arith, seven_more s)

Reads-read_vint_loop :
    (fuel k v acc shift : ℕ)
    → v ≤ fuel
    → 32 ≤ shift + k
    → shift < 32
    → acc < 2 ^ shift
    → acc + v * 2 ^ shift < 2 ^ 32
    → Reads (read_vint_loop k acc shift) (vint_bytes fuel v) (acc + v * 2 ^ shift)
Reads-read_vint_loop fuel zero v acc shift hv hk hs ha h = absurd (omega arith)
Reads-read_vint_loop zero (suc k) v acc shift hv hk hs ha h =
    read_vint_last k v acc shift (omega arith) ha h
Reads-read_vint_loop (suc fuel) (suc k) v acc shift hv hk hs ha h = elim (Bool-cases (leb 0x80 v)) [
  | inl more ↦
      let big : 128 ≤ v = leb→le 0x80 v more in
      let small : shift + 7 < 32 = more_shift v shift big (omega arith) in
      let e : acc + v * 2 ^ shift ≡ acc + v % 128 * 2 ^ shift + v / 128 * 2 ^ (shift + 7) =
        groups_sum shift v acc in
      rw (more, e)
        (read_vint_more k (v % 128) acc shift _ _ (omega arith) ha (omega arith) small (
          Reads-read_vint_loop fuel k (v / 128) (acc + v % 128 * 2 ^ shift) (shift + 7)
            (omega arith) (omega arith) small (low_group_fits acc v shift ha) (omega arith)))
  | inr last ↦ rw last (read_vint_last k v acc shift (ground arith) ha h)
]

pub Reads-read_vint : (v : ℕ) → IsU32 v → Reads read_vint (vint_bytes v v) v
unfolding read_vint
Reads-read_vint v h =
    let e : 0 + v * 2 ^ 0 ≡ v = omega arith in
    subst (λ a. Reads (read_vint_loop 32 0 0) (vint_bytes v v) a) e
      (Reads-read_vint_loop v 32 v 0 0 (omega arith) (omega arith) (omega arith) (omega arith)
        (omega arith))

bytes_eq_refl : (x : Bytes) → bytes_eq x x ≡ true
bytes_eq_refl [] = refl
bytes_eq_refl (b ∷ x) = rw ((==_iff b b).1 refl) (bytes_eq_refl x)

pub bytes_eq→eq : (x y : Bytes) → bytes_eq x y ≡ true → x ≡ y
bytes_eq→eq [] [] h = refl
bytes_eq→eq [] (b ∷ y) h = cc
bytes_eq→eq (a ∷ x) [] h = cc
bytes_eq→eq (a ∷ x) (b ∷ y) h = ground (arith, bytes_eq→eq x y)

pub Reads-expect_bytes : (x : Bytes) → Reads (expect_bytes x) x tt
unfolding expect_bytes
Reads-expect_bytes x =
    subst (λ y. Reads (expect_bytes x) y tt) (append-nil x)
      (Reads-bind _ _ (Reads-read_slice x) (rw (bytes_eq_refl x) (Reads-pure tt)))

-- At the end of the bytes, and only there.
pub expect_done-reader_at :
    (pre : Bytes) → expect_done (reader_at pre []) ≡ ok (tt, reader_at pre [])
unfolding expect_done
expect_done-reader_at pre = rw (append-nil pre, (==_iff (length pre) (length pre)).1 refl)

-- A reader over exactly the bytes that an action takes.
pub Reads-new {ℓ} :
    {A : Type ℓ} {m : Reader A} (x : Bytes) (a : A)
    → Reads m x a
    → length x < u64_mod
    → m (new_reader x) ≡ ok (a, reader_at x [])
Reads-new {m = m} x a h fits =
    subst (λ y. m (new_reader y) ≡ ok (a, reader_at x [])) (append-nil x)
      (h.at [] [] (rw append-nil fits))

-- An action that takes all that is left.
pub Reads-last {ℓ} :
    {A : Type ℓ} {m : Reader A} (pre x : Bytes) (a : A)
    → Reads m x a
    → length (pre ++ x) < u64_mod
    → m (reader_at pre x) ≡ ok (a, reader_at (pre ++ x) [])
Reads-last {m = m} pre x a h fits =
    subst (λ y. m (reader_at pre y) ≡ ok (a, reader_at (pre ++ x) [])) (append-nil x)
      (h.at pre [] (rw append-nil fits))

abbrev pub concat_map {ℓ} : {A : Type ℓ} → (A → Bytes) → List A → Bytes
concat_map bytes [] = []
concat_map bytes (x ∷ xs) = bytes x ++ concat_map bytes xs

-- Reading as often as there are items, each behind the other.
module _ {A : Type 0} (read : Reader A) (bytes : A → Bytes) (Good : A → Type 0)
    (one : (x : A) → Good x → Reads read (bytes x) x) where
  pub Reads-read_times :
      (xs : List A) → All Good xs → Reads (read_times read (length xs)) (concat_map bytes xs) xs
  unfolding read_times
  Reads-read_times [] h = Reads-pure []
  Reads-read_times (x ∷ xs) h =
      subst (λ y. Reads (read_times read (suc (length xs))) (bytes x ++ y) (x ∷ xs))
        (append-nil (concat_map bytes xs))
        (Reads-bind _ _ (one x h.0)
          (Reads-bind _ _ (Reads-read_times xs h.1) (Reads-pure (x ∷ xs))))
