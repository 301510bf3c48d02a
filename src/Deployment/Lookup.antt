-- ===== src/Deployment/Lookup.antt =====
-- Lookups in a rollout after a write to one of its deployments.
use labrys.Base.{
  ◌≡◌, ◌≢◌, refl, inl, inr, Bool, true, false, some, List, [], ◌∷◌, Text, find, modify_first, ok,
  err, ◌>>◌, CoreError, Method, arith, Option-cases, text_eq_iff,
}
use labrys.Deployment.Lifecycle.{Deployment}
use labrys.Deployment.Rollouts.{Rollout, is_id, get, on_deployment}

module _ {A : Type 0} (p : A → Bool) (f : A → A) where
  find-modify_first :
      (xs : List A) {a : A}
      → ((x : A) → p x ≡ true → p (f x) ≡ true)
      → find p xs ≡ some a
      → find p (modify_first p f xs) ≡ some (f a)
  find-modify_first [] keep h = absurd (ground arith)
  find-modify_first (x ∷ xs) {a} keep h = ground (arith, keep x, find-modify_first xs {a = a} keep)

  find-modify_other :
      (q : A → Bool) (xs : List A)
      → ((x : A) → q x ≡ true → p x ≡ false)
      → ((x : A) → q x ≡ true → p (f x) ≡ false)
      → find p (modify_first q f xs) ≡ find p xs
  find-modify_other q [] before after = refl
  find-modify_other q (x ∷ xs) before after =
      ground (arith, before x, after x, find-modify_other q xs before after)

-- A method that keeps the identifier.
abbrev pub KeepsId : Method Deployment (Unit {0}) → Type 0
KeepsId m = (d : Deployment) → (m d).1.id ≡ d.id

module _ (m : Method Deployment (Unit {0})) where
  pub on_deployment-get :
      (id : Text) (r : Rollout) {d : Deployment}
      → KeepsId m
      → get id r ≡ some d
      → get id (on_deployment id m r).1 ≡ some (m d).1
  unfolding get
  on_deployment-get id r {d} keep h =
      rw (h, on_deployment)
        (find-modify_first (is_id id) (λ x. (m x).1) r.deployments (λ x e. rw (keep x) e) h)

  pub on_deployment-other :
      (id other : Text) (r : Rollout)
      → KeepsId m
      → other ≢ id
      → get other (on_deployment id m r).1 ≡ get other r
  unfolding get
  on_deployment-other id other r keep ne = elim (Option-cases (find (is_id id) r.deployments)) [
    | inl e ↦ rw (e, on_deployment) refl
    | inr (d, e) ↦
        rw (e, on_deployment)
          (find-modify_other (is_id other) (λ x. (m x).1) (is_id id) r.deployments
            (λ x h. ground (arith, text_eq_iff x.id id, text_eq_iff x.id other))
            (λ x h. ground (arith, keep x, text_eq_iff x.id id, text_eq_iff x.id other)))
  ]

  pub on_deployment-current :
      (id : Text) (r : Rollout) → (on_deployment id m r).1.current ≡ r.current
  on_deployment-current id r = ground arith

  pub on_deployment-err :
      (id : Text) (r : Rollout) {e : CoreError}
      → ((d : Deployment) → (m d).0 ≢ err e)
      → (on_deployment id m r).0 ≢ err e
  on_deployment-err id r never h = elim (Option-cases (find (is_id id) r.deployments)) [
    | inl none_there ↦ absurd (ground arith)
    | inr (d, there) ↦ never d (rw (there, on_deployment) at h)
  ]

  -- What is found under an identifier after a write to it is what the write has made.
  pub on_deployment-written :
      (id : Text) (r : Rollout) {x : Deployment}
      → KeepsId m
      → get id (on_deployment id m r).1 ≡ some x
      → (d : Deployment) × (x ≡ (m d).1)
  unfolding get
  on_deployment-written id r {x} keep h = elim (Option-cases (get id r)) [
    | inl e ↦ absurd (let h1 = rw (e, on_deployment) at h in let e1 = e in cc)
    | inr (d, e) ↦ (d, let made = on_deployment-get id r keep e in cc)
  ]

-- Two steps in a row that fail, or succeed, as a whole.
module _ {S : Type 0} (m k : Method S (Unit {0})) (s : S) where
  pub then-err :
      {e : CoreError} → ((s' : S) → (k s').0 ≢ err e) → ((m >> k) s).0 ≡ err e → (m s).0 ≡ err e
  then-err {e = x} never h = ground (arith, never (m s).1)

  pub then-ok : ((m >> k) s).0 ≡ ok tt → ((m s).0 ≡ ok tt) × ((m >> k) s ≡ k (m s).1)
  then-ok h = ground arith
