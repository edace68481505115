-- ===== src/Base/Lists.antt =====
-- Lists by native numbers: length, prefixes, suffixes and slices.
use Prim.Native.Nat.{ℕ, zero, suc, ◌+◌, ◌-◌, ◌≤◌}
use mathlib.Core.Path.{◌≡◌, refl, ap}
use mathlib.Core.Logic.{◌⊎◌, inl, inr}
use mathlib.Core.Option.{Option, none, some}
use mathlib.Core.List.{List, [], ◌∷◌, ◌++◌}
use native.Mathlib.Omega.{arith}

module _ {ℓ} {A : Type ℓ} where
  abbrev pub length : List A → ℕ
  length [] = 0
  length (x ∷ xs) = suc (length xs)

  abbrev pub get_elem? : List A → ℕ → Option A
  get_elem? [] i = none
  get_elem? (x ∷ xs) zero = some x
  get_elem? (x ∷ xs) (suc i) = get_elem? xs i

  abbrev pub take : ℕ → List A → List A
  take zero xs = []
  take (suc n) [] = []
  take (suc n) (x ∷ xs) = x ∷ take n xs

  abbrev pub drop : ℕ → List A → List A
  drop zero xs = xs
  drop (suc n) [] = []
  drop (suc n) (x ∷ xs) = drop n xs

  abbrev pub All {κ} : (A → Type κ) → List A → Type κ
  All P [] = Unit {κ}
  All P (x ∷ xs) = P x × All P xs

  -- The Rust slice `&xs[start..end]`.
  abbrev pub slice : ℕ → ℕ → List A → List A
  slice start end xs = take (end - start) (drop start xs)

  pub length-append : (xs ys : List A) → length (xs ++ ys) ≡ length xs + length ys
  length-append [] ys = omega arith
  length-append (x ∷ xs) ys = omega (arith, length-append xs ys)

  pub length-take : (n : ℕ) (xs : List A) → n ≤ length xs → length (take n xs) ≡ n
  length-take zero xs h = refl
  length-take (suc n) [] h = absurd (omega arith)
  length-take (suc n) (x ∷ xs) h = omega (arith, length-take n xs (omega arith))

  pub length-drop : (n : ℕ) (xs : List A) → length (drop n xs) ≡ length xs - n
  length-drop zero xs = omega arith
  length-drop (suc n) [] = omega arith
  length-drop (suc n) (x ∷ xs) = omega (arith, length-drop n xs)

  pub take-append : (xs ys : List A) → take (length xs) (xs ++ ys) ≡ xs
  take-append [] ys = refl
  take-append (x ∷ xs) ys = ap (◌∷◌ x) (take-append xs ys)

  pub drop-append : (xs ys : List A) → drop (length xs) (xs ++ ys) ≡ ys
  drop-append [] ys = refl
  drop-append (x ∷ xs) ys = drop-append xs ys

  pub take-append-drop : (n : ℕ) (xs : List A) → take n xs ++ drop n xs ≡ xs
  take-append-drop zero xs = refl
  take-append-drop (suc n) [] = refl
  take-append-drop (suc n) (x ∷ xs) = ap (◌∷◌ x) (take-append-drop n xs)

  pub drop-nil : (n : ℕ) → drop n [] ≡ []
  drop-nil zero = refl
  drop-nil (suc n) = refl

  pub drop-drop : (m n : ℕ) (xs : List A) → drop n (drop m xs) ≡ drop (m + n) xs
  drop-drop zero n xs = ground arith
  drop-drop (suc m) n [] = ground (arith, drop-nil n, drop-nil (suc m + n))
  drop-drop (suc m) n (x ∷ xs) =
      let e : suc m + n ≡ suc (m + n) = omega arith in rw e (drop-drop m n xs)

  module _ {κ} (P : A → Type κ) where
    pub All-append : (xs ys : List A) → All P xs → All P ys → All P (xs ++ ys)
    All-append [] ys h k = k
    All-append (x ∷ xs) ys h k = (h.0, All-append xs ys h.1 k)

    pub All-take : (n : ℕ) (xs : List A) → All P xs → All P (take n xs)
    All-take zero xs h = tt
    All-take (suc n) [] h = tt
    All-take (suc n) (x ∷ xs) h = (h.0, All-take n xs h.1)

    pub All-drop : (n : ℕ) (xs : List A) → All P xs → All P (drop n xs)
    All-drop zero xs h = h
    All-drop (suc n) [] h = tt
    All-drop (suc n) (x ∷ xs) h = All-drop n xs h.1

  pub All-imp {κ μ} :
      (P : A → Type κ) (Q : A → Type μ) (xs : List A) → ((x : A) → P x → Q x) → All P xs → All Q xs
  All-imp P Q [] f h = tt
  All-imp P Q (x ∷ xs) f h = (f x h.0, All-imp P Q xs f h.1)

module _ {A : Type 0} where
  abbrev pub Any : (A → Type 0) → List A → Type 0
  Any P [] = ⊥
  Any P (x ∷ xs) = P x ⊎ Any P xs

  module _ (P : A → Type 0) where
    pub Any-append_left : (xs ys : List A) → Any P xs → Any P (xs ++ ys)
    Any-append_left [] ys h = absurd h
    Any-append_left (x ∷ xs) ys (inl h) = inl h
    Any-append_left (x ∷ xs) ys (inr h) = inr (Any-append_left xs ys h)

    pub Any-append_right : (xs ys : List A) → Any P ys → Any P (xs ++ ys)
    Any-append_right [] ys h = h
    Any-append_right (x ∷ xs) ys h = inr (Any-append_right xs ys h)

    pub Any-append_cases : (xs ys : List A) → Any P (xs ++ ys) → Any P xs ⊎ Any P ys
    Any-append_cases [] ys h = inr h
    Any-append_cases (x ∷ xs) ys (inl h) = inl (inl h)
    Any-append_cases (x ∷ xs) ys (inr h) = elim (Any-append_cases xs ys h) [
      | inl k ↦ inl (inr k)
      | inr k ↦ inr k
    ]

  pub All-Any :
      (P Q R : A → Type 0) (xs : List A)
      → ((x : A) → P x → Q x → R x)
      → All P xs
      → Any Q xs
      → Any R xs
  All-Any P Q R [] f h k = absurd k
  All-Any P Q R (x ∷ xs) f h (inl k) = inl (f x h.0 k)
  All-Any P Q R (x ∷ xs) f h (inr k) = inr (All-Any P Q R xs f h.1 k)
