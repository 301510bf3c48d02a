-- ===== src/Base/Keyed.antt =====
-- `BTreeMap<String, V>`: an association list in the order of its keys.
use Prim.Native.Nat.{ℕ, ◌+◌, ◌≤◌}
use mathlib.Core.Path.{◌≡◌, refl, subst}
use mathlib.Core.Logic.{◌≢◌, inl, inr}
use mathlib.Core.Bool.{Bool, true, false}
use mathlib.Core.Option.{Option, none, some}
use mathlib.Core.List.{List, [], ◌∷◌}
use native.Mathlib.Omega.{arith}
use labrys.Base.Tests.{if◌then◌else◌, Bool-cases}
use labrys.Base.Lists.{All, count}
use labrys.Base.Chars.{Text, text_eq, text_lt, text_eq_iff}

abbrev pub TreeMap {ℓ} : Type ℓ → Type ℓ
TreeMap V = List (Text × V)

module _ {ℓ} {V : Type ℓ} where
  -- `map.get(k)`.
  unfoldable pub lookup : Text → TreeMap V → Option V
  lookup k [] = none
  lookup k ((j, v) ∷ m) = if text_eq k j then some v else lookup k m

  -- `map.insert(k, v)`.
  unfoldable pub insert : Text → V → TreeMap V → TreeMap V
  insert k v [] = (k, v) ∷ []
  insert k v ((j, w) ∷ m) =
      let rest = insert k v m in
      if text_eq k j then (k, v) ∷ m else if text_lt k j then (k, v) ∷ (j, w) ∷ m else (j, w) ∷ rest

  -- The write through `map.get_mut(k)`.
  unfoldable pub modify_at : Text → (V → V) → TreeMap V → TreeMap V
  modify_at k f [] = []
  modify_at k f ((j, v) ∷ m) = if text_eq k j then (j, f v) ∷ m else (j, v) ∷ modify_at k f m

  -- `map.values()`.
  abbrev pub values : TreeMap V → List V
  values [] = []
  values ((_, v) ∷ m) = v ∷ values m

  pub lookup-insert :
      (k j : Text) (v : V) (m : TreeMap V)
      → lookup j (insert k v m) ≡ (if text_eq j k then some v else lookup j m)
  unfolding lookup insert
  lookup-insert k j v [] = refl
  lookup-insert k j v ((i, w) ∷ m) = ground (
    arith,
    text_eq_iff k j,
    text_eq_iff j k,
    text_eq_iff k i,
    text_eq_iff j i,
    lookup-insert k j v m,
  )

-- How a write at a key, or an insertion, changes what holds of all values and how many satisfy a
-- test.
abbrev pub bit : Bool → ℕ
bit true = 1
bit false = 0

module _ {ℓ} {V : Type ℓ} where
  pub All-modify_at {κ} :
      (P : V → Type κ) (k : Text) (f : V → V) (m : TreeMap V)
      → ((v : V) → lookup k m ≡ some v → P v → P (f v))
      → All P (values m)
      → All P (values (modify_at k f m))
  unfolding lookup modify_at
  All-modify_at P k f [] keep h = h
  All-modify_at P k f ((j, v) ∷ m) keep h = elim (Bool-cases (text_eq k j)) [
    | inl e ↦ rw e (keep v (rw e) h.0, h.1)
    | inr e ↦ rw e (h.0, All-modify_at P k f m (λ w found. keep w (rw e found)) h.1)
  ]

  pub All-insert {κ} :
      (P : V → Type κ) (k : Text) (v : V) (m : TreeMap V)
      → P v
      → All P (values m)
      → All P (values (insert k v m))
  unfolding insert
  All-insert P k v [] new h = (new, tt)
  All-insert P k v ((j, w) ∷ m) new h = elim (Bool-cases (text_eq k j)) [
    | inl e ↦ rw e (new, h.1)
    | inr e ↦ rw e (elim (Bool-cases (text_lt k j)) [
      | inl l ↦ rw l (new, h)
      | inr l ↦ rw l (h.0, All-insert P k v m new h.1)
    ])
  ]

  pub All-lookup {κ} :
      (P : V → Type κ) (k : Text) (m : TreeMap V) {v : V}
      → All P (values m)
      → lookup k m ≡ some v
      → P v
  unfolding lookup
  All-lookup P k [] h e = absurd (cc)
  All-lookup P k ((j, w) ∷ m) {v} h e = elim (Bool-cases (text_eq k j)) [
    | inl t ↦ let same : w ≡ v = ground arith in subst P same h.0
    | inr t ↦ All-lookup P k m h.1 (rw t at e)
  ]

  pub count-modify_at :
      (p : V → Bool) (k : Text) (f : V → V) (m : TreeMap V) {v : V}
      → lookup k m ≡ some v
      → count p (values (modify_at k f m)) + bit (p v) ≡ count p (values m) + bit (p (f v))
  unfolding lookup modify_at
  count-modify_at p k f [] e = absurd (cc)
  count-modify_at p k f ((j, w) ∷ m) {v} e = elim (Bool-cases (text_eq k j)) [
    | inl t ↦ let same : w ≡ v = ground arith in rw t (rw same (ground arith))
    | inr t ↦ rw t (ground (arith, count-modify_at p k f m {v = v} (rw t at e)))
  ]

  pub count-insert :
      (p : V → Bool) (k : Text) (v : V) (m : TreeMap V)
      → count p (values (insert k v m)) ≤ count p (values m) + bit (p v)
  unfolding insert
  count-insert p k v [] = ground arith
  count-insert p k v ((j, w) ∷ m) = ground (arith, count-insert p k v m)

  pub lookup-modify_at_self :
      (k : Text) (f : V → V) (m : TreeMap V) {v : V}
      → lookup k m ≡ some v
      → lookup k (modify_at k f m) ≡ some (f v)
  unfolding lookup modify_at
  lookup-modify_at_self k f [] e = absurd (cc)
  lookup-modify_at_self k f ((j, w) ∷ m) e = elim (Bool-cases (text_eq k j)) [
    | inl t ↦ rw t (rw t (ground arith))
    | inr t ↦ rw t (rw t (lookup-modify_at_self k f m (rw t at e)))
  ]

  pub lookup-modify_at_ne :
      (j k : Text) (f : V → V) (m : TreeMap V) → j ≢ k → lookup j (modify_at k f m) ≡ lookup j m
  unfolding lookup modify_at
  lookup-modify_at_ne j k f [] ne = refl
  lookup-modify_at_ne j k f ((i, w) ∷ m) ne =
      ground (arith, text_eq_iff j i, text_eq_iff k i, lookup-modify_at_ne j k f m ne)
