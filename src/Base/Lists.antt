-- ===== src/Base/Lists.antt =====
-- Lists measured by native numbers, and the list operations that the code uses.
use Prim.Native.Nat.{ℕ, suc}
use mathlib.Core.Path.{◌≡◌, refl, subst}
use mathlib.Core.Logic.{inl, inr}
use mathlib.Core.Bool.{Bool, true, false, ◌&&◌, ◌||◌}
use mathlib.Core.Option.{Option, none, some}
use mathlib.Core.List.{List, [], ◌∷◌, ◌++◌}
use native.Mathlib.Omega.{arith}
use labrys.Base.Tests.{if◌then◌else◌, Bool-cases}

module _ {ℓ} {A : Type ℓ} where
  abbrev pub length : List A → ℕ
  length [] = 0
  length (x ∷ xs) = suc (length xs)

  -- `Vec::push`.
  abbrev pub push : List A → A → List A
  push xs a = xs ++ a ∷ []

  -- `slice::last`.
  abbrev pub last : List A → Option A
  last [] = none
  last (x ∷ []) = some x
  last (x ∷ y ∷ xs) = last (y ∷ xs)

  -- `Iterator::find`.
  abbrev pub find : (A → Bool) → List A → Option A
  find p [] = none
  find p (x ∷ xs) = if p x then some x else find p xs

  -- `Iterator::any` and `Iterator::all`.
  abbrev pub any : (A → Bool) → List A → Bool
  any p [] = false
  any p (x ∷ xs) = p x || any p xs

  abbrev pub all : (A → Bool) → List A → Bool
  all p [] = true
  all p (x ∷ xs) = p x && all p xs

  -- `Iterator::filter` and `Vec::retain`.
  abbrev pub retain : (A → Bool) → List A → List A
  retain p [] = []
  retain p (x ∷ xs) = let rest = retain p xs in if p x then x ∷ rest else rest

  abbrev pub count : (A → Bool) → List A → ℕ
  count p [] = 0
  count p (x ∷ xs) = let rest = count p xs in if p x then suc rest else rest

  -- `for x in xs.iter_mut() { if p(x) { f(x) } break }`: the write through `iter_mut().find(p)`.
  abbrev pub modify_first : (A → Bool) → (A → A) → List A → List A
  modify_first p f [] = []
  modify_first p f (x ∷ xs) = if p x then f x ∷ xs else x ∷ modify_first p f xs

  -- Every member satisfies a predicate.
  abbrev pub All {κ} : (A → Type κ) → List A → Type κ
  All P [] = Unit
  All P (x ∷ xs) = P x × All P xs

module _ {ℓ} {A : Type ℓ} where
  pub last-push : (xs : List A) (a : A) → last (push xs a) ≡ some a
  last-push [] a = refl
  last-push (x ∷ []) a = refl
  last-push (x ∷ y ∷ xs) a = last-push (y ∷ xs) a

  pub length-push : (xs : List A) (a : A) → length (push xs a) ≡ suc (length xs)
  length-push [] a = refl
  length-push (x ∷ xs) a = omega (arith, length-push xs a)

  pub find_sound : (p : A → Bool) (xs : List A) {a : A} → find p xs ≡ some a → p a ≡ true
  find_sound p [] h = cc
  find_sound p (x ∷ xs) {a} h = elim (Bool-cases (p x)) [
    | inl e ↦ ground arith
    | inr e ↦ find_sound p xs (rw e at h)
  ]

  pub find-none-count : (p : A → Bool) (xs : List A) → find p xs ≡ none → count p xs ≡ 0
  find-none-count p [] h = refl
  find-none-count p (x ∷ xs) h = ground (arith, find-none-count p xs)

  pub All-push {κ} : (P : A → Type κ) (xs : List A) (a : A) → All P xs → P a → All P (push xs a)
  All-push P [] a h p = (p, tt)
  All-push P (x ∷ xs) a h p = (h.0, All-push P xs a h.1 p)

  pub All-modify_first {κ} :
      (P : A → Type κ) (p : A → Bool) (f : A → A) (xs : List A)
      → ((x : A) → p x ≡ true → P x → P (f x))
      → All P xs
      → All P (modify_first p f xs)
  All-modify_first P p f [] keep h = h
  All-modify_first P p f (x ∷ xs) keep h =
      ground (arith, keep x, All-modify_first P p f xs keep h.1)

  pub All-find {κ} :
      (P : A → Type κ) (p : A → Bool) (xs : List A) {a : A} → All P xs → find p xs ≡ some a → P a
  All-find P p [] h e = absurd (cc)
  All-find P p (x ∷ xs) {a} h e = elim (Bool-cases (p x)) [
    | inl t ↦ let same : x ≡ a = ground arith in subst P same h.0
    | inr t ↦ All-find P p xs h.1 (rw t at e)
  ]
