-- ===== src/Base/Ordered.antt =====
-- The order of texts, and maps in the order of their keys.
use mathlib.Core.Path.{◌≡◌, refl}
use mathlib.Core.Logic.{inl, inr}
use mathlib.Core.Bool.{true, false}
use mathlib.Core.Option.{some}
use mathlib.Core.List.{[], ◌∷◌}
use native.Mathlib.Omega.{arith}
use labrys.Base.Tests.{Bool-cases}
use labrys.Base.Lists.{All}
use labrys.Base.Chars.{Text, text_eq, text_lt, text_eq_iff, text_eq_refl}
use labrys.Base.Keyed.{TreeMap, lookup, insert, modify_at, values}

pub text_lt_irrefl : (s : Text) → text_lt s s ≡ false
unfolding text_lt
text_lt_irrefl [] = refl
text_lt_irrefl (x ∷ s) = ground (arith, text_lt_irrefl s)

pub text_lt_trans : (s t u : Text) → text_lt s t ≡ true → text_lt t u ≡ true → text_lt s u ≡ true
unfolding text_lt
text_lt_trans [] [] u h k = cc
text_lt_trans [] (y ∷ t) [] h k = cc
text_lt_trans [] (y ∷ t) (z ∷ u) h k = refl
text_lt_trans (x ∷ s) [] u h k = cc
text_lt_trans (x ∷ s) (y ∷ t) [] h k = cc
text_lt_trans (x ∷ s) (y ∷ t) (z ∷ u) h k = ground (arith, text_lt_trans s t u)

pub text_lt_total : (s t : Text) → text_eq s t ≡ false → text_lt s t ≡ false → text_lt t s ≡ true
unfolding text_lt text_eq
text_lt_total [] [] h k = cc
text_lt_total [] (y ∷ t) h k = cc
text_lt_total (x ∷ s) [] h k = refl
text_lt_total (x ∷ s) (y ∷ t) h k = ground (arith, text_lt_total s t)

module _ {ℓ} {V : Type ℓ} where
  -- Every entry satisfies a predicate of its key and value.
  abbrev pub Entries {κ} : (Text → V → Type κ) → TreeMap V → Type κ
  Entries P [] = Unit
  Entries P ((k, v) ∷ m) = P k v × Entries P m

  abbrev pub Above : Text → TreeMap V → Type 0
  Above k m = Entries (λ j _. text_lt k j ≡ true) m

  -- The keys strictly increase.
  abbrev pub Sorted : TreeMap V → Type 0
  Sorted [] = Unit
  Sorted ((k, v) ∷ m) = Above k m × Sorted m

module _ {ℓ} {V : Type ℓ} where
  pub Entries-modify_at {κ} :
      (P : Text → V → Type κ) (k : Text) (f : V → V) (m : TreeMap V)
      → ((j : Text) (v : V) → P j v → P j (f v))
      → Entries P m
      → Entries P (modify_at k f m)
  unfolding modify_at
  Entries-modify_at P k f [] keep h = h
  Entries-modify_at P k f ((j, v) ∷ m) keep h = elim (Bool-cases (text_eq k j)) [
    | inl e ↦ rw e (keep j v h.0, h.1)
    | inr e ↦ rw e (h.0, Entries-modify_at P k f m keep h.1)
  ]

  pub Entries-insert {κ} :
      (P : Text → V → Type κ) (k : Text) (v : V) (m : TreeMap V)
      → P k v
      → Entries P m
      → Entries P (insert k v m)
  unfolding insert
  Entries-insert P k v [] new h = (new, tt)
  Entries-insert P k v ((j, w) ∷ m) new h = elim (Bool-cases (text_eq k j)) [
    | inl e ↦ rw e (new, h.1)
    | inr e ↦ rw e (elim (Bool-cases (text_lt k j)) [
      | inl l ↦ rw l (new, h)
      | inr l ↦ rw l (h.0, Entries-insert P k v m new h.1)
    ])
  ]

  pub Entries-map {κ μ} :
      {P : Text → V → Type κ} {Q : Text → V → Type μ} (m : TreeMap V)
      → ((k : Text) (v : V) → P k v → Q k v)
      → Entries P m
      → Entries Q m
  Entries-map [] f h = tt
  Entries-map ((k, v) ∷ m) f h = (f k v h.0, Entries-map m f h.1)

  pub Entries-values {κ μ} :
      (P : Text → V → Type κ) (Q : V → Type μ) (m : TreeMap V)
      → ((k : Text) (v : V) → P k v → Q v)
      → Entries P m
      → All Q (values m)
  Entries-values P Q [] f h = tt
  Entries-values P Q ((k, v) ∷ m) f h = (f k v h.0, Entries-values P Q m f h.1)

  pub Entries-both {κ μ} :
      (P : Text → V → Type κ) (Q : Text → V → Type μ) (m : TreeMap V)
      → Entries P m
      → Entries Q m
      → Entries (λ k v. P k v × Q k v) m
  Entries-both P Q [] h k = tt
  Entries-both P Q (e ∷ m) h k = ((h.0, k.0), Entries-both P Q m h.1 k.1)

  pub Sorted-modify_at :
      (k : Text) (f : V → V) (m : TreeMap V) → Sorted m → Sorted (modify_at k f m)
  unfolding modify_at
  Sorted-modify_at k f [] h = tt
  Sorted-modify_at k f ((j, v) ∷ m) h = elim (Bool-cases (text_eq k j)) [
    | inl e ↦ rw e h
    | inr e ↦ rw e (
      Entries-modify_at (λ i _. text_lt j i ≡ true) k f m (λ _ _ above. above) h.0,
      Sorted-modify_at k f m h.1,
    )
  ]

  pub Sorted-insert : (k : Text) (v : V) (m : TreeMap V) → Sorted m → Sorted (insert k v m)
  unfolding insert
  Sorted-insert k v [] h = (tt, tt)
  Sorted-insert k v ((j, w) ∷ m) h = elim (Bool-cases (text_eq k j)) [
    | inl e ↦ rw e (let same = (text_eq_iff k j).0 e in rw same (h.0, h.1))
    | inr e ↦ rw e (elim (Bool-cases (text_lt k j)) [
      | inl l ↦ rw l ((l, Entries-map m (λ i _ above. text_lt_trans k j i l above) h.0), h)
      | inr l ↦ rw l (
        Entries-insert (λ i _. text_lt j i ≡ true) k v m (text_lt_total k j e l) h.0,
        Sorted-insert k v m h.1,
      )
    ])
  ]

  lookup-later :
      (k j : Text) (v w : V) (m : TreeMap V)
      → text_lt j k ≡ true
      → lookup k m ≡ some v
      → lookup k ((j, w) ∷ m) ≡ some v
  unfolding lookup
  lookup-later k j v w m less found = elim (Bool-cases (text_eq k j)) [
    | inl e ↦
        let same : k ≡ j = (text_eq_iff k j).0 e in
        let loop : text_lt j j ≡ true = rw same at less in absurd (cc (text_lt_irrefl j))
    | inr e ↦ rw e found
  ]

  -- In an ordered map each entry is the one that its key finds.
  pub Sorted-lookup : (m : TreeMap V) → Sorted m → Entries (λ k v. lookup k m ≡ some v) m
  unfolding lookup
  Sorted-lookup [] h = tt
  Sorted-lookup ((j, w) ∷ m) h = (
    rw (text_eq_refl j),
    Entries-map m (λ k v found. lookup-later k j v w m found.0 found.1)
        (Entries-both (λ k _. text_lt j k ≡ true) (λ k v. lookup k m ≡ some v) m h.0
          (Sorted-lookup m h.1)),
  )
