-- ===== src/Base/Occurrences.antt =====
-- What `str::contains` finds.
use mathlib.Core.Path.{◌≡◌, refl, ap}
use mathlib.Core.Logic.{◌↔◌, inl, inr}
use mathlib.Core.Bool.{true}
use mathlib.Core.List.{[], ◌∷◌, ◌++◌}
use native.Mathlib.Omega.{arith}
use labrys.Base.Tests.{==_iff, Bool-cases}
use labrys.Base.Chars.{Text, starts_with, contains}

-- The text is `p` between two other texts.
abbrev pub Occurs : Text → Text → Type 0
Occurs p t = (before : Text) × (after : Text) × (t ≡ before ++ (p ++ after))

starts_with_iff : (p t : Text) → (starts_with p t ≡ true) ↔ ((after : Text) × (t ≡ p ++ after))
unfolding starts_with
starts_with_iff [] t = (λ _. (t, refl), λ _. refl)
starts_with_iff (p ∷ ps) [] = (λ h. absurd (cc), λ h. absurd (let e = h.1 in cc))
starts_with_iff (p ∷ ps) (c ∷ cs) = (
  λ h.
      let (after, e) = (starts_with_iff ps cs).0 (ground arith) in
      (after, let same : p ≡ c = ground (arith, ==_iff p c) in cc),
  λ (after, e).
      let rest : starts_with ps cs ≡ true = (starts_with_iff ps cs).1 (after, cc) in
      let same : p ≡ c = cc in ground (arith, ==_iff p c),
)

starts-contains : (p t : Text) → starts_with p t ≡ true → contains p t ≡ true
unfolding contains
starts-contains p [] h = h
starts-contains p (c ∷ cs) h = ground arith

contains-Occurs : (p t : Text) → contains p t ≡ true → Occurs p t
unfolding contains
contains-Occurs p [] h = let (after, e) = (starts_with_iff p []).0 h in ([], after, e)
contains-Occurs p (c ∷ cs) h = elim (Bool-cases (starts_with p (c ∷ cs))) [
  | inl here ↦ let (after, e) = (starts_with_iff p (c ∷ cs)).0 here in ([], after, e)
  | inr later ↦
      let (before, after, e) = contains-Occurs p cs (ground arith) in
      (c ∷ before, after, ap (λ xs. c ∷ xs) e)
]

Occurs-contains : (p before after t : Text) → t ≡ before ++ (p ++ after) → contains p t ≡ true
unfolding contains
Occurs-contains p [] after t e = starts-contains p t ((starts_with_iff p t).1 (after, e))
Occurs-contains p (b ∷ before) after [] e = absurd (cc)
Occurs-contains p (b ∷ before) after (c ∷ cs) e =
    let rest : contains p cs ≡ true = Occurs-contains p before after cs (cc) in ground arith

-- `t.contains(p)` holds exactly when `p` stands somewhere in the text.
pub contains_iff : (p t : Text) → (contains p t ≡ true) ↔ Occurs p t
contains_iff p t = (contains-Occurs p t, λ (before, after, e). Occurs-contains p before after t e)
