-- ===== src/Base/Chars.antt =====
-- Texts as lists of code points, with the tests of `str` that the code uses. The order of texts is
-- that of code points, which is the byte order of their UTF-8 forms.
use Prim.Native.Nat.{ℕ, ◌+◌}
use Prim.Native.Char.{code}
use Prim.Native.String.{String}
use mathlib.Core.Path.{◌≡◌, refl}
use mathlib.Core.Logic.{◌↔◌}
use mathlib.Core.Bool.{Bool, true, false, ◌&&◌, ◌||◌}
use mathlib.Core.List.{List, [], ◌∷◌, ◌++◌}
use mathlib.Core.Option.{Option, none, some}
use native.Mathlib.Omega.{arith}
use labrys.Base.Tests.{ltb, leb, ◌==◌, if◌then◌else◌}
use labrys.Base.Lists.{all}

abbrev pub Text : Type 0
Text = List ℕ

-- The code points of a literal.
abbrev pub text : String → Text
text String.[] = []
text (String.◌∷◌ c s) = code c ∷ text s

unfoldable pub text_eq : Text → Text → Bool
text_eq [] [] = true
text_eq (x ∷ xs) (y ∷ ys) = (x == y) && text_eq xs ys
text_eq _ _ = false

pub text_eq_iff : (s t : Text) → (text_eq s t ≡ true) ↔ (s ≡ t)
unfolding text_eq
text_eq_iff [] [] = (λ _. refl, λ _. refl)
text_eq_iff [] (y ∷ ys) = (λ h. cc, λ h. cc)
text_eq_iff (x ∷ xs) [] = (λ h. cc, λ h. cc)
text_eq_iff (x ∷ xs) (y ∷ ys) = ground (arith, text_eq_iff xs ys)

pub text_eq_refl : (s : Text) → text_eq s s ≡ true
text_eq_refl s = (text_eq_iff s s).1 refl

unfoldable pub text_lt : Text → Text → Bool
text_lt [] [] = false
text_lt [] (y ∷ ys) = true
text_lt (x ∷ xs) [] = false
text_lt (x ∷ xs) (y ∷ ys) = let rest = text_lt xs ys in if x == y then rest else ltb x y

-- `char::is_whitespace`: the code points with the property White_Space.
unfoldable pub is_whitespace : ℕ → Bool
is_whitespace c =
    (leb 0x09 c && leb c 0x0d)
    || c == 0x20
    || c == 0x85
    || c == 0xa0
    || c == 0x1680
    || (leb 0x2000 c && leb c 0x200a)
    || c == 0x2028
    || c == 0x2029
    || c == 0x202f
    || c == 0x205f
    || c == 0x3000

-- `s.trim().is_empty()`: nothing but whitespace.
unfoldable pub is_blank : Text → Bool
unfolding is_whitespace
is_blank s = all is_whitespace s

-- `s.is_empty()`.
abbrev pub is_empty : Text → Bool
is_empty [] = true
is_empty (_ ∷ _) = false

-- `s.strip_prefix(p)`.
unfoldable pub strip_prefix : Text → Text → Option Text
strip_prefix [] s = some s
strip_prefix (p ∷ ps) [] = none
strip_prefix (p ∷ ps) (c ∷ cs) = let rest = strip_prefix ps cs in if p == c then rest else none

-- `s.starts_with(p)`.
unfoldable pub starts_with : Text → Text → Bool
starts_with [] s = true
starts_with (p ∷ ps) [] = false
starts_with (p ∷ ps) (c ∷ cs) = (p == c) && starts_with ps cs

-- `s.contains(p)`.
unfoldable pub contains : Text → Text → Bool
unfolding starts_with
contains p [] = starts_with p []
contains p (c ∷ cs) = starts_with p (c ∷ cs) || contains p cs

unfoldable pub drop_blank : Text → Text
unfolding is_whitespace
drop_blank [] = []
drop_blank (c ∷ cs) = let rest = drop_blank cs in if is_whitespace c then rest else c ∷ cs

-- `s.trim()`.
unfoldable pub trim : Text → Text
unfolding drop_blank
trim s = rev (drop_blank (rev (drop_blank s)))
  where
    rev_onto : Text → Text → Text
    rev_onto [] out = out
    rev_onto (c ∷ cs) out = rev_onto cs (c ∷ out)

    rev : Text → Text
    rev t = rev_onto t []

-- `s.to_ascii_lowercase()`.
unfoldable pub to_ascii_lowercase : Text → Text
to_ascii_lowercase [] = []
to_ascii_lowercase (c ∷ cs) =
    (if leb b'A' c && leb c b'Z' then c + 32 else c) ∷ to_ascii_lowercase cs

-- `s.split(c)`: the pieces between the separators, at least one.
unfoldable pub split : ℕ → Text → List Text
split c [] = [] ∷ []
split c (x ∷ xs) = if x == c then [] ∷ split c xs else grow x (split c xs)
  where
    grow : ℕ → List Text → List Text
    grow x [] = (x ∷ []) ∷ []
    grow x (piece ∷ pieces) = (x ∷ piece) ∷ pieces

-- `pieces.join(separator)`.
unfoldable pub join : Text → List Text → Text
join separator [] = []
join separator (p ∷ []) = p
join separator (p ∷ q ∷ ps) = p ++ (separator ++ join separator (q ∷ ps))
