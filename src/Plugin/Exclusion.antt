-- ===== src/Plugin/Exclusion.antt =====
-- One active plugin for each family.
use labrys.Base.{
  ◌≡◌, refl, sym, ap, ◌∙◌, Bool, true, false, none, some, List, [], ◌∷◌, Text, text_eq, text_eq_iff,
  find, values, TreeMap, lookup, insert, lookup-insert, ◌⊎◌, All, All-lookup, Result, ok, err,
  panic, arith, Bool-cases, inl, inr, Option-cases,
}
use labrys.Plugin.Handshakes.{PluginManifest, PluginFamily, same_family, Handshake, negotiate}
use labrys.Plugin.Processes.{PluginProcess, is_active, connect, connected}
use labrys.Plugin.Registry.{
  PluginRegistry, new_registry, is_rival, was_refused, holds_rival, register,
}

-- Each plugin is stored under its own identifier, and two active ones of a family are one.
pub record IsExclusive (r : PluginRegistry) : Type 0 where
  pub named : (i : Text) (p : PluginProcess) → lookup i r.plugins ≡ some p → p.manifest.id ≡ i
  pub single :
      (i j : Text) (p q : PluginProcess)
      → lookup i r.plugins ≡ some p
      → lookup j r.plugins ≡ some q
      → is_active p.state ≡ true
      → is_active q.state ≡ true
      → same_family p.manifest.family q.manifest.family ≡ true
      → i ≡ j

find-none : {A : Type 0} (p : A → Bool) (xs : List A) → find p xs ≡ none → All (λ x. p x ≡ false) xs
find-none p [] h = tt
find-none p (x ∷ xs) h = elim (Bool-cases (p x)) [
  | inl e ↦ absurd (ground arith)
  | inr e ↦ (e, find-none p xs (rw e at h))
]

no_rival :
    (m : PluginManifest) (r : PluginRegistry) (j : Text) (q : PluginProcess)
    → holds_rival m r ≡ false
    → lookup j r.plugins ≡ some q
    → is_rival m q ≡ false
no_rival m r j q none_holds here = elim (Option-cases (find (is_rival m) (values r.plugins))) [
  | inl e ↦
      All-lookup (λ x. is_rival m x ≡ false) j r.plugins
        (find-none (is_rival m) (values r.plugins) e) here
  | inr (x, e) ↦ absurd (ground arith)
]

-- What is looked up after an insertion.
insert_cases :
    (k i : Text) (v p : PluginProcess) (m : TreeMap PluginProcess)
    → lookup i (insert k v m) ≡ some p
    → ((i ≡ k) × (v ≡ p)) ⊎ ((text_eq i k ≡ false) × (lookup i m ≡ some p))
insert_cases k i v p m h =
    let looked = lookup-insert k i v m in let same = text_eq_iff i k in ground arith

rival :
    (m : PluginManifest) (q : PluginProcess)
    → same_family q.manifest.family m.family ≡ true
    → is_active q.state ≡ true
    → text_eq q.manifest.id m.id ≡ false
    → is_rival m q ≡ true
rival m q f a n = rw (f, a, n) refl

family_sym : (f g : PluginFamily) → same_family f g ≡ true → same_family g f ≡ true
family_sym f g h = ground arith

-- A process that is stored under its identifier, and is active only when no other of its family is.
module _ (m : PluginManifest) (v : PluginProcess) (r : PluginRegistry) (own : v.manifest ≡ m)
    (alone : is_active v.state ≡ true → holds_rival m r ≡ false) (h : IsExclusive r) where
  -- No other plugin of its family is active beside it.
  only :
      (j : Text) (p q : PluginProcess)
      → v ≡ p
      → text_eq j m.id ≡ false
      → lookup j r.plugins ≡ some q
      → is_active p.state ≡ true
      → is_active q.state ≡ true
      → same_family p.manifest.family q.manifest.family ≡ true
      → ⊥
  only j p q is_v other old p_active q_active family =
      let v_active : is_active v.state ≡ true = ap (λ x. is_active x.state) is_v ∙ p_active in
      let m_family : same_family m.family q.manifest.family ≡ true =
        ap (λ x. same_family x.family q.manifest.family) (sym own)
        ∙ ap (λ x. same_family x.manifest.family q.manifest.family) is_v
        ∙ family in
      let apart : text_eq q.manifest.id m.id ≡ false =
        ap (λ x. text_eq x m.id) (h.named j q old) ∙ other in
      let is = rival m q (family_sym m.family q.manifest.family m_family) q_active apart in
      let is_not = no_rival m r j q (alone v_active) old in cc

  together :
      (i j : Text) (p q : PluginProcess)
      → ((i ≡ m.id) × (v ≡ p)) ⊎ ((text_eq i m.id ≡ false) × (lookup i r.plugins ≡ some p))
      → ((j ≡ m.id) × (v ≡ q)) ⊎ ((text_eq j m.id ≡ false) × (lookup j r.plugins ≡ some q))
      → is_active p.state ≡ true
      → is_active q.state ≡ true
      → same_family p.manifest.family q.manifest.family ≡ true
      → i ≡ j
  together i j p q (inl (ik, vp)) (inl (jk, vq)) a b f = ik ∙ sym jk
  together i j p q (inl (ik, vp)) (inr (other, old)) a b f = absurd (only j p q vp other old a b f)
  together i j p q (inr (other, old)) (inl (jk, vq)) a b f =
      absurd (only i q p vq other old b a (family_sym p.manifest.family q.manifest.family f))
  together i j p q (inr (oi, li)) (inr (oj, lj)) a b f = h.single i j p q li lj a b f

  name_of :
      (i : Text) (p : PluginProcess)
      → ((i ≡ m.id) × (v ≡ p)) ⊎ ((text_eq i m.id ≡ false) × (lookup i r.plugins ≡ some p))
      → p.manifest.id ≡ i
  name_of i p (inl (ik, vp)) = ap (λ x. x.manifest.id) (sym vp) ∙ ap (λ x. x.id) own ∙ sym ik
  name_of i p (inr (other, old)) = h.named i p old

  insert-IsExclusive : IsExclusive (record { plugins = insert m.id v r.plugins })
  insert-IsExclusive = record {
    named = λ i p e. name_of i p (insert_cases m.id i v p r.plugins e);
    single = λ i j p q e f.
        together i j p q (insert_cases m.id i v p r.plugins e)
          (insert_cases m.id j v q r.plugins f);
  }

connect-manifest : (m : PluginManifest) → (connect m).manifest ≡ m
unfolding connect
connect-manifest m = manifest_of (negotiate m)
  where
    manifest_of : (h : Result Handshake) → (connected m h).manifest ≡ m
    manifest_of (ok h) = refl
    manifest_of (err e) = refl
    manifest_of panic = refl

connect-refused :
    (m : PluginManifest) → was_refused (connect m) ≡ true → is_active (connect m).state ≡ false
unfolding connect
connect-refused m = inactive (negotiate m)
  where
    inactive :
        (h : Result Handshake)
        → was_refused (connected m h) ≡ true
        → is_active (connected m h).state ≡ false
    inactive (ok h) e = absurd (cc)
    inactive (err e) h = refl
    inactive panic e = absurd (cc)

register-IsExclusive :
    (m : PluginManifest) (r : PluginRegistry) → IsExclusive r → IsExclusive (register m r).1
unfolding register
register-IsExclusive m r h = elim (Bool-cases (was_refused (connect m))) [
  | inl e ↦ rw e (
      insert-IsExclusive m (connect m) r (connect-manifest m)
        (λ a. let n = connect-refused m e in absurd (cc)) h)
  | inr e ↦ rw e (elim (Bool-cases (holds_rival m r)) [
    | inl t ↦ rw t h
    | inr t ↦ rw t (insert-IsExclusive m (connect m) r (connect-manifest m) (λ _. t) h)
  ])
]

abbrev pub register_all : List PluginManifest → PluginRegistry → PluginRegistry
register_all [] r = r
register_all (m ∷ ms) r = register_all ms (register m r).1

register_all-keep :
    (ms : List PluginManifest) (r : PluginRegistry)
    → IsExclusive r
    → IsExclusive (register_all ms r)
register_all-keep [] r h = h
register_all-keep (m ∷ ms) r h = register_all-keep ms (register m r).1 (register-IsExclusive m r h)

-- After any registrations with a new registry, refused ones among them, each plugin is stored under
-- its own identifier, and no two plugins of a family are active.
pub register_all-IsExclusive :
    (ms : List PluginManifest) → IsExclusive (register_all ms new_registry)
unfolding new_registry lookup
register_all-IsExclusive ms =
    register_all-keep ms new_registry
      (record { named = λ i p e. absurd (cc); single = λ i j p q e f a b g. absurd (cc) })
