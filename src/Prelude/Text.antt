-- ===== src/Prelude/Text.antt =====
-- Go's strings as lists of characters: equality, prefixes, white space and the decimal text of an integer.
use Prim.Native.Nat.{ℕ, zero, suc, ◌+◌, ◌/◌, ◌%◌}
use mathlib.Core.Path.{◌≡◌, refl}
use mathlib.Core.Bool.{Bool, true, false, ◌&&◌, ◌||◌}
use mathlib.Core.List.{List, [], ◌∷◌, ◌++◌, reverse}
use native.Mathlib.Omega.{arith}
use fa.Prelude.Tests.{ltb, leb, ◌==◌, if◌then◌else◌}
use fa.Prelude.Int.{ℤ, pos, negsuc}

abbrev pub Text : Type 0
Text = List ℕ

abbrev pub eq_text : Text → Text → Bool
eq_text [] [] = true
eq_text [] (y ∷ ys) = false
eq_text (x ∷ xs) [] = false
eq_text (x ∷ xs) (y ∷ ys) = (x == y) && eq_text xs ys

pub eq_text_refl : (xs : Text) → eq_text xs xs ≡ true
eq_text_refl [] = refl
eq_text_refl (x ∷ xs) = ground (arith, eq_text_refl xs)

pub eq_text_sound : (xs ys : Text) → eq_text xs ys ≡ true → xs ≡ ys
eq_text_sound [] [] h = refl
eq_text_sound [] (y ∷ ys) h = cc
eq_text_sound (x ∷ xs) [] h = cc
eq_text_sound (x ∷ xs) (y ∷ ys) h = ground (arith, eq_text_sound xs ys)

-- strings.HasPrefix
abbrev pub has_prefix : Text → Text → Bool
has_prefix s [] = true
has_prefix [] (y ∷ ys) = false
has_prefix (x ∷ xs) (y ∷ ys) = (x == y) && has_prefix xs ys

-- unicode.IsSpace
unfoldable pub is_space : ℕ → Bool
is_space c =
    (leb 9 c && leb c 13)
    || (c == 32)
    || (c == 133)
    || (c == 160)
    || (c == 5760)
    || (leb 8192 c && leb c 8202)
    || (c == 8232)
    || (c == 8233)
    || (c == 8239)
    || (c == 8287)
    || (c == 12288)

unfoldable pub trim_left : Text → Text
unfolding is_space
trim_left [] = []
trim_left (c ∷ s) = let rest = trim_left s in if is_space c then rest else c ∷ s

-- strings.TrimSpace
unfoldable pub trim_space : Text → Text
unfolding trim_left
trim_space s = reverse (trim_left (reverse (trim_left s)))

-- fmt's %d, with one round for each unit, which is more than the digits.
unfoldable pub digits : ℕ → ℕ → Text
digits zero n = []
digits (suc fuel) n =
    let more = digits fuel (n / 10) in
    if ltb n 10 then (b'0' + n) ∷ [] else more ++ ((b'0' + n % 10) ∷ [])

unfoldable pub decimal : ℤ → Text
unfolding digits
decimal (pos n) = digits (suc n) n
decimal (negsuc n) = b'-' ∷ digits (suc (suc n)) (suc n)
