-- ===== src/Base/Text.antt =====
-- Rust strings as lists of code points. Their order is that of `str`: UTF-8 keeps the order of
-- the code points.
use Prim.Native.Nat.{ℕ}
use Prim.Native.Char.{code}
use Prim.Native.String.{String}
use mathlib.Core.Path.{◌≡◌, refl}
use mathlib.Core.Logic.{◌↔◌}
use mathlib.Core.Bool.{Bool, true, false, ◌&&◌, ◌||◌}
use mathlib.Core.List.{List, [], ◌∷◌, reverse}
use native.Mathlib.Omega.{arith}
use kevindb.Base.Tests.{leb, ◌==◌, if◌then◌else◌}

abbrev pub Text : Type 0
Text = List ℕ

abbrev pub text : String → Text
text String.[] = []
text (String.◌∷◌ c s) = code c ∷ text s

abbrev pub text_eq : Text → Text → Bool
text_eq [] [] = true
text_eq [] (b ∷ bs) = false
text_eq (a ∷ as') [] = false
text_eq (a ∷ as') (b ∷ bs) = a == b && text_eq as' bs

pub text_eq_refl : (s : Text) → text_eq s s ≡ true
text_eq_refl [] = refl
text_eq_refl (a ∷ s) = ground (arith, text_eq_refl s)

pub text_eq→eq : (s t : Text) → text_eq s t ≡ true → s ≡ t
text_eq→eq [] [] h = refl
text_eq→eq [] (b ∷ t) h = cc
text_eq→eq (a ∷ s) [] h = cc
text_eq→eq (a ∷ s) (b ∷ t) h = ground (arith, text_eq→eq s t)

pub text_eq_iff : (s t : Text) → (text_eq s t ≡ true) ↔ (s ≡ t)
text_eq_iff s t = (text_eq→eq s t, λ e. rw e (text_eq_refl t))

-- `char::is_whitespace`, the Unicode property White_Space.
abbrev pub is_whitespace : ℕ → Bool
is_whitespace c =
    (leb 9 c && leb c 13)
    || (c == 32)
    || (c == 0x85)
    || (c == 0xA0)
    || (c == 0x1680)
    || (leb 0x2000 c && leb c 0x200A)
    || (c == 0x2028)
    || (c == 0x2029)
    || (c == 0x202F)
    || (c == 0x205F)
    || (c == 0x3000)

abbrev pub trim_start : Text → Text
trim_start [] = []
trim_start (c ∷ s) = if is_whitespace c then trim_start s else c ∷ s

-- `str::trim`
unfoldable pub trim : Text → Text
trim s = reverse (trim_start (reverse (trim_start s)))
