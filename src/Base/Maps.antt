-- ===== src/Base/Maps.antt =====
-- `BTreeMap<u32, V>` and `BTreeSet<u32>` as ascending lists.
use Prim.Native.Nat.{ℕ, ◌<◌}
use mathlib.Core.Path.{◌≡◌, refl, sym, ◌∙◌}
use mathlib.Core.Bool.{Bool, false, ◌||◌}
use mathlib.Core.Option.{Option, none, some}
use mathlib.Core.List.{List, [], ◌∷◌, ◌++◌, append_assoc, append-nil}
use native.Mathlib.Omega.{arith}
use kevindb.Base.Tests.{ltb, ◌==◌, if◌then◌else◌}
use kevindb.Base.Lists.{All, All-append}

module _ {ℓ} {V : Type ℓ} where
  abbrev pub lookup : ℕ → List (ℕ × V) → Option V
  lookup k [] = none
  lookup k ((j, v) ∷ m) = if j == k then some v else lookup k m

  -- `insert`, in place of an entry that is there.
  abbrev pub insert : ℕ → V → List (ℕ × V) → List (ℕ × V)
  insert k v [] = (k, v) ∷ []
  insert k v ((j, w) ∷ m) =
      if ltb k j then (k, v) ∷ (j, w) ∷ m else if j == k then (k, v) ∷ m else (j, w) ∷ insert k v m

  pub lookup-insert :
      (k j : ℕ) (v : V) (m : List (ℕ × V))
      → lookup j (insert k v m) ≡ (if k == j then some v else lookup j m)
  lookup-insert k j v [] = refl
  lookup-insert k j v ((i, w) ∷ m) = ground (arith, lookup-insert k j v m)

abbrev pub contains : ℕ → List ℕ → Bool
contains k [] = false
contains k (x ∷ xs) = (x == k) || contains k xs

abbrev pub insert_set : ℕ → List ℕ → List ℕ
insert_set x [] = x ∷ []
insert_set x (y ∷ ys) =
    if ltb x y then x ∷ y ∷ ys else if y == x then y ∷ ys else y ∷ insert_set x ys

-- `into_iter().collect::<BTreeSet<_>>()`, on top of `set`.
abbrev pub collect_set : List ℕ → List ℕ → List ℕ
collect_set set [] = set
collect_set set (x ∷ xs) = collect_set (insert_set x set) xs

-- Every element is above the ones before it.
abbrev pub Increasing : List ℕ → Type 0
Increasing [] = Unit {0}
Increasing (x ∷ xs) = All (λ y. x < y) xs × Increasing xs

insert_set-behind : (x : ℕ) (ys : List ℕ) → All (λ y. y < x) ys → insert_set x ys ≡ ys ++ (x ∷ [])
insert_set-behind x [] h = refl
insert_set-behind x (y ∷ ys) h = ground (arith, h.0, insert_set-behind x ys h.1)

All-weaken : (ys : List ℕ) (x z : ℕ) → All (λ y. y < x) ys → x < z → All (λ y. y < z) ys
All-weaken [] x z h lt = tt
All-weaken (y ∷ ys) x z h lt = (omega (arith, h.0), All-weaken ys x z h.1 lt)

-- All of `set` below all of `xs`.
abbrev pub Below : List ℕ → List ℕ → Type 0
Below set [] = Unit {0}
Below set (x ∷ xs) = All (λ y. y < x) set × Below set xs

Below-append :
    (set : List ℕ) (x : ℕ) (xs : List ℕ)
    → Below set xs
    → All (λ y. x < y) xs
    → Below (set ++ (x ∷ [])) xs
Below-append set x [] h k = tt
Below-append set x (y ∷ xs) h k =
    (All-append (λ z. z < y) set (x ∷ []) h.0 (k.0, tt), Below-append set x xs h.1 k.1)

collect_set-Increasing :
    (set xs : List ℕ) → Below set xs → Increasing xs → collect_set set xs ≡ set ++ xs
collect_set-Increasing set [] h k = sym (append-nil set)
collect_set-Increasing set (x ∷ xs) h k = rw (insert_set-behind x set h.0) (
    collect_set-Increasing (set ++ (x ∷ [])) xs (Below-append set x xs h.1 k.0) k.1
    ∙ append_assoc set (x ∷ []) xs)

Below-nil : (xs : List ℕ) → Below [] xs
Below-nil [] = tt
Below-nil (x ∷ xs) = (tt, Below-nil xs)

-- An increasing list is its own set.
pub collect_set_lem : (xs : List ℕ) → Increasing xs → collect_set [] xs ≡ xs
collect_set_lem xs h = collect_set-Increasing [] xs (Below-nil xs) h
