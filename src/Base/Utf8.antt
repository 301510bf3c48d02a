-- ===== src/Base/Utf8.antt =====
-- `String::from_utf8`, one byte at a time, and its agreement with `str::as_bytes`.
use Prim.Native.Nat.{ℕ, zero, suc, ◌+◌, ◌-◌, ◌*◌, ◌/◌, ◌%◌, ◌≤◌, ◌<◌}
use mathlib.Core.Path.{◌≡◌, refl, ap, ◌∙◌}
use mathlib.Core.Bool.{Bool, true, false, ◌&&◌, ◌||◌}
use mathlib.Core.List.{List, [], ◌∷◌, ◌++◌}
use mathlib.Core.Option.{Option, none, some}
use native.Mathlib.Omega.{arith}
use mathlib.Core.Logic.{inl, inr}
use labrys.Base.Tests.{ltb, leb, if◌then◌else◌, Bool-cases}
use labrys.Base.Lists.{All}
use labrys.Base.Chars.{Text}
use labrys.Base.Fnv.{utf8, as_bytes}

-- A Unicode scalar value.
abbrev pub is_scalar : ℕ → Bool
is_scalar c = ltb c 0xd800 || (leb 0xe000 c && ltb c 0x110000)

abbrev pub IsValid : Text → Type 0
IsValid t = All (λ c. is_scalar c ≡ true) t

abbrev prepend : ℕ → Option Text → Option Text
prepend c none = none
prepend c (some t) = some (c ∷ t)

-- `need` more bytes of a character, with what was read of it, and the least character that takes
-- that many bytes.
abbrev decode : ℕ → ℕ → ℕ → List ℕ → Option Text
decode zero acc least [] = some []
decode (suc need) acc least [] = none
decode zero acc least (b ∷ bs) =
    let one = prepend b (decode 0 0 0 bs) in
    let two = decode 1 (b - 0xc0) 0x80 bs in
    let three = decode 2 (b - 0xe0) 0x800 bs in
    let four = decode 3 (b - 0xf0) 0x10000 bs in
    if ltb b 0x80
    then one
    else if ltb b 0xc0
    then none
    else if ltb b 0xe0
    then two
    else if ltb b 0xf0
    then three
    else if ltb b 0xf8
    then four
    else none
decode (suc zero) acc least (b ∷ bs) =
    let c = acc * 64 + (b - 0x80) in
    let rest = prepend c (decode 0 0 0 bs) in
    if leb 0x80 b && ltb b 0xc0 && (leb least c && is_scalar c) then rest else none
decode (suc (suc need)) acc least (b ∷ bs) =
    let rest = decode (suc need) (acc * 64 + (b - 0x80)) least bs in
    if leb 0x80 b && ltb b 0xc0 then rest else none

unfoldable pub from_utf8 : List ℕ → Option Text
from_utf8 bytes = decode 0 0 0 bytes

lead_one : (b : ℕ) (bs : List ℕ) → b < 0x80 → decode 0 0 0 (b ∷ bs) ≡ prepend b (decode 0 0 0 bs)
lead_one b bs h = ground arith

lead_two :
    (b : ℕ) (bs : List ℕ)
    → 0xc0 ≤ b
    → b < 0xe0
    → decode 0 0 0 (b ∷ bs) ≡ decode 1 (b - 0xc0) 0x80 bs
lead_two b bs l h = ground arith

lead_three :
    (b : ℕ) (bs : List ℕ)
    → 0xe0 ≤ b
    → b < 0xf0
    → decode 0 0 0 (b ∷ bs) ≡ decode 2 (b - 0xe0) 0x800 bs
lead_three b bs l h = ground arith

lead_four :
    (b : ℕ) (bs : List ℕ)
    → 0xf0 ≤ b
    → b < 0xf8
    → decode 0 0 0 (b ∷ bs) ≡ decode 3 (b - 0xf0) 0x10000 bs
lead_four b bs l h = ground arith

-- A continuation byte carries six bits.
more :
    (need acc least x : ℕ) (bs : List ℕ)
    → x < 64
    → decode (suc (suc need)) acc least ((0x80 + x) ∷ bs)
      ≡ decode (suc need) (acc * 64 + x) least bs
more need acc least x bs h = let same : 0x80 + x - 0x80 ≡ x = omega arith in rw same (ground arith)

final :
    (acc least x : ℕ) (bs : List ℕ)
    → x < 64
    → least ≤ acc * 64 + x
    → is_scalar (acc * 64 + x) ≡ true
    → decode 1 acc least ((0x80 + x) ∷ bs) ≡ prepend (acc * 64 + x) (decode 0 0 0 bs)
final acc least x bs h l v = let same : 0x80 + x - 0x80 ≡ x = omega arith in rw same (ground arith)

module _ (c : ℕ) (bs : List ℕ) (valid : is_scalar c ≡ true) where
  whole_two :
      0x80 ≤ c
      → c < 0x800
      → decode 0 0 0 ((0xc0 + c / 64) ∷ (0x80 + c % 64) ∷ bs) ≡ prepend c (decode 0 0 0 bs)
  whole_two l h =
      let acc : 0xc0 + c / 64 - 0xc0 ≡ c / 64 = omega arith in
      let whole : c / 64 * 64 + c % 64 ≡ c = omega arith in
      lead_two (0xc0 + c / 64) ((0x80 + c % 64) ∷ bs) (omega arith) (omega arith)
      ∙ rw acc (
          final (c / 64) 0x80 (c % 64) bs (omega arith) (omega arith) (rw whole valid)
          ∙ ap (λ d. prepend d (decode 0 0 0 bs)) whole)

  whole_three :
      0x800 ≤ c
      → c < 0x10000
      → decode 0 0 0 ((0xe0 + c / 4096) ∷ (0x80 + c / 64 % 64) ∷ (0x80 + c % 64) ∷ bs)
        ≡ prepend c (decode 0 0 0 bs)
  whole_three l h =
      let a = c / 4096 * 64 + c / 64 % 64 in
      let acc : 0xe0 + c / 4096 - 0xe0 ≡ c / 4096 = omega arith in
      let upper : c / 4096 * 64 + c / 64 % 64 ≡ c / 64 = omega arith in
      let whole : c / 64 * 64 + c % 64 ≡ c = omega arith in
      lead_three (0xe0 + c / 4096) ((0x80 + c / 64 % 64) ∷ (0x80 + c % 64) ∷ bs) (omega arith)
        (omega arith)
      ∙ rw acc (
          more 0 (c / 4096) 0x800 (c / 64 % 64) ((0x80 + c % 64) ∷ bs) (omega arith)
          ∙ rw upper (
              final (c / 64) 0x800 (c % 64) bs (omega arith) (omega arith) (rw whole valid)
              ∙ ap (λ d. prepend d (decode 0 0 0 bs)) whole))

  whole_four :
      0x10000 ≤ c
      → decode 0 0 0 (
          (0xf0 + c / 262144)
          ∷ (0x80 + c / 4096 % 64)
          ∷ (0x80 + c / 64 % 64)
          ∷ (0x80 + c % 64)
          ∷ bs)
        ≡ prepend c (decode 0 0 0 bs)
  whole_four l =
      let below : c < 0x110000 = ground arith in
      let acc : 0xf0 + c / 262144 - 0xf0 ≡ c / 262144 = omega arith in
      let top : c / 262144 * 64 + c / 4096 % 64 ≡ c / 4096 = omega arith in
      let upper : c / 4096 * 64 + c / 64 % 64 ≡ c / 64 = omega arith in
      let whole : c / 64 * 64 + c % 64 ≡ c = omega arith in
      lead_four (0xf0 + c / 262144)
        ((0x80 + c / 4096 % 64) ∷ (0x80 + c / 64 % 64) ∷ (0x80 + c % 64) ∷ bs) (omega arith)
        (omega arith)
      ∙ rw acc (
          more 1 (c / 262144) 0x10000 (c / 4096 % 64) ((0x80 + c / 64 % 64) ∷ (0x80 + c % 64) ∷ bs)
            (omega arith)
          ∙ rw top (
              more 0 (c / 4096) 0x10000 (c / 64 % 64) ((0x80 + c % 64) ∷ bs) (omega arith)
              ∙ rw upper (
                  final (c / 64) 0x10000 (c % 64) bs (omega arith) (omega arith) (rw whole valid)
                  ∙ ap (λ d. prepend d (decode 0 0 0 bs)) whole)))

  decode-utf8 : decode 0 0 0 (utf8 c ++ bs) ≡ prepend c (decode 0 0 0 bs)
  unfolding utf8
  decode-utf8 = elim (Bool-cases (ltb c 0x80)) [
    | inl one ↦ rw one (lead_one c bs (ground arith))
    | inr s ↦ rw s (elim (Bool-cases (ltb c 0x800)) [
      | inl two ↦ rw two (whole_two (ground arith) (ground arith))
      | inr t ↦ rw t (elim (Bool-cases (ltb c 0x10000)) [
        | inl three ↦ rw three (whole_three (ground arith) (ground arith))
        | inr u ↦ rw u (whole_four (ground arith))
      ])
    ])
  ]

-- The bytes of a text are read back as that text.
pub from_utf8-as_bytes : (t : Text) → IsValid t → from_utf8 (as_bytes t) ≡ some t
unfolding from_utf8 as_bytes
from_utf8-as_bytes [] h = refl
from_utf8-as_bytes (c ∷ cs) h =
    decode-utf8 c (as_bytes cs) h.0 ∙ ap (prepend c) (from_utf8-as_bytes cs h.1)

-- What was decoded, if anything, is valid.
abbrev pub HoldsValid : Option Text → Type 0
HoldsValid none = Unit
HoldsValid (some t) = IsValid t

either :
    (b : Bool) (x y : Option Text)
    → (b ≡ true → HoldsValid x)
    → HoldsValid y
    → HoldsValid (if b then x else y)
either true x y h k = h refl
either false x y h k = k

both : (a b : Bool) → (a && b) ≡ true → b ≡ true
both true b h = h
both false b h = absurd (cc)

prepend-HoldsValid :
    (c : ℕ) (o : Option Text) → is_scalar c ≡ true → HoldsValid o → HoldsValid (prepend c o)
prepend-HoldsValid c none v h = tt
prepend-HoldsValid c (some t) v h = (v, h)

decode-HoldsValid : (need acc least : ℕ) (bs : List ℕ) → HoldsValid (decode need acc least bs)
decode-HoldsValid zero acc least [] = tt
decode-HoldsValid (suc need) acc least [] = tt
decode-HoldsValid zero acc least (b ∷ bs) =
    either (ltb b 0x80) _ _
      (λ h. prepend-HoldsValid b (decode 0 0 0 bs) (ground arith) (decode-HoldsValid 0 0 0 bs))
      (either (ltb b 0xc0) _ _ (λ _. tt)
        (either (ltb b 0xe0) _ _ (λ _. decode-HoldsValid 1 (b - 0xc0) 0x80 bs)
          (either (ltb b 0xf0) _ _ (λ _. decode-HoldsValid 2 (b - 0xe0) 0x800 bs)
            (either (ltb b 0xf8) _ _ (λ _. decode-HoldsValid 3 (b - 0xf0) 0x10000 bs) tt))))
decode-HoldsValid (suc zero) acc least (b ∷ bs) =
    let c = acc * 64 + (b - 0x80) in
    let test = leb 0x80 b && ltb b 0xc0 && (leb least c && is_scalar c) in
    either test (prepend c (decode 0 0 0 bs)) none
      (λ h.
        prepend-HoldsValid c (decode 0 0 0 bs)
          (both (leb least c) (is_scalar c)
            (both (leb 0x80 b && ltb b 0xc0) (leb least c && is_scalar c) h))
          (decode-HoldsValid 0 0 0 bs))
      tt
decode-HoldsValid (suc (suc need)) acc least (b ∷ bs) =
    either (leb 0x80 b && ltb b 0xc0) (decode (suc need) (acc * 64 + (b - 0x80)) least bs) none
      (λ _. decode-HoldsValid (suc need) (acc * 64 + (b - 0x80)) least bs) tt

pub from_utf8-HoldsValid : (bytes : List ℕ) → HoldsValid (from_utf8 bytes)
unfolding from_utf8
from_utf8-HoldsValid bytes = decode-HoldsValid 0 0 0 bytes
