-- ===== src/Deployment/Promotion.antt =====
-- Promotion of a deployment to the current one.
use mathlib.Core.Path.{subst}
use labrys.Base.{
  ◌≡◌, ◌≢◌, refl, ap, ◌∙◌, Method, modify, ◌>>◌, not_found, deployment, inl, inr, true, false,
  Option, none, some, Text, ok, err, CoreError, arith, Bool-cases, Option-cases, text_eq,
  text_eq_iff,
}
use labrys.Base.Clock.{Instant}
use labrys.Deployment.Phase.{healthy, can_transition_to, same_phase}
use labrys.Deployment.Lifecycle.{Deployment, latest_phase, move_to, mark_superseded}
use labrys.Deployment.Rollouts.{Rollout, get, on_deployment, supersede_healthy, supersede, promote}
use labrys.Deployment.Gate.{same_phase_iff}
use labrys.Deployment.Lookup.{
  KeepsId, on_deployment-get, on_deployment-other, on_deployment-err, then-err, then-ok,
}

supersede_healthy-KeepsId : (at : Instant) → KeepsId (supersede_healthy at)
unfolding mark_superseded move_to
supersede_healthy-KeepsId at d = ground arith

supersede_healthy-never :
    (at : Instant) {e : CoreError} (d : Deployment) → (supersede_healthy at d).0 ≢ err e
unfolding mark_superseded move_to can_transition_to latest_phase
supersede_healthy-never at d h = ground arith

supersede_healthy-phase :
    (at : Instant) (d : Deployment) → (supersede_healthy at d).1.phase ≢ healthy
unfolding mark_superseded move_to can_transition_to
supersede_healthy-phase at d h = ground arith

supersede-err :
    (previous : Option Text) (id : Text) (at : Instant) (r : Rollout) {e : CoreError}
    → (supersede previous id at r).0 ≢ err e
supersede-err none id at r h = cc
supersede-err (some previous) id at r {e} h = ground (
  arith,
  on_deployment-err (supersede_healthy at) previous r {e = e} (supersede_healthy-never at),
)

supersede-get :
    (previous : Option Text) (id : Text) (at : Instant) (r : Rollout)
    → get id (supersede previous id at r).1 ≡ get id r
supersede-get none id at r = refl
supersede-get (some previous) id at r = elim (Bool-cases (text_eq previous id)) [
  | inl e ↦ rw e refl
  | inr e ↦ rw e (
      on_deployment-other (supersede_healthy at) previous id r (supersede_healthy-KeepsId at)
        (λ same. ground (arith, text_eq_iff previous id)))
]

supersede-previous :
    (previous id : Text) (at : Instant) (r : Rollout) {d : Deployment}
    → previous ≢ id
    → get previous r ≡ some d
    → get previous (supersede (some previous) id at r).1 ≡ some (supersede_healthy at d).1
supersede-previous previous id at r ne h =
    let differs : text_eq previous id ≡ false = ground (arith, text_eq_iff previous id) in
    rw differs
      (on_deployment-get (supersede_healthy at) previous r (supersede_healthy-KeepsId at) h)

supersede-missing :
    (previous id : Text) (at : Instant) (r : Rollout)
    → get previous r ≡ none
    → get previous (supersede (some previous) id at r).1 ≡ none
unfolding get
supersede-missing previous id at r h = elim (Bool-cases (text_eq previous id)) [
  | inl e ↦ rw e h
  | inr e ↦ rw (e, on_deployment) (rw (h, on_deployment) h)
]

-- The last two steps of a promotion.
abbrev pub switch : Text → Instant → Rollout → Method Rollout (Unit {0})
switch id at r = supersede r.current id at >> modify (λ s. record s { current = some id })

module _ (id : Text) (at : Instant) (r : Rollout) where
  promote-missing : get id r ≡ none → promote id at r ≡ (err not_found, r)
  unfolding promote
  promote-missing h = rw h refl

  promote-early :
      {d : Deployment}
      → get id r ≡ some d
      → same_phase d.phase healthy ≡ false
      → promote id at r ≡ (err deployment, r)
  unfolding promote
  promote-early h low = rw h (rw low refl)

  promote-switch :
      {d : Deployment}
      → get id r ≡ some d
      → same_phase d.phase healthy ≡ true
      → promote id at r ≡ switch id at r r
  unfolding promote
  promote-switch h up = rw h (rw up refl)

-- A promotion that is refused changes nothing.
pub promote-err :
    (id : Text) (at : Instant) (r : Rollout) {e : CoreError}
    → (promote id at r).0 ≡ err e
    → (promote id at r).1 ≡ r
promote-err id at r {e = x} h = elim (Option-cases (get id r)) [
  | inl e ↦ rw (promote-missing id at r e) refl
  | inr (d, e) ↦ elim (Bool-cases (same_phase d.phase healthy)) [
    | inr low ↦ rw (promote-early id at r e low) refl
    | inl up ↦ absurd (
        supersede-err r.current id at r (
          then-err (supersede r.current id at) (modify (λ s. record s { current = some id })) r
            (λ s h. cc) (rw (promote-switch id at r e up) at h)))
  ]
]

promote-written :
    (id : Text) (at : Instant) (r : Rollout)
    → (promote id at r).0 ≡ ok tt
    → (d : Deployment) × (get id r ≡ some d)
      × (d.phase ≡ healthy)
      × ((promote id at r).1 ≡ record (supersede r.current id at r).1 { current = some id })
promote-written id at r h = elim (Option-cases (get id r)) [
  | inl e ↦ absurd (let h1 = rw (promote-missing id at r e) at h in cc)
  | inr (d, e) ↦ elim (Bool-cases (same_phase d.phase healthy)) [
    | inr low ↦ absurd (let h1 = rw (promote-early id at r e low) at h in cc)
    | inl up ↦
        let switched = promote-switch id at r e up in
        let written =
          then-ok (supersede r.current id at) (modify (λ s. record s { current = some id })) r
            (rw switched at h) in
        (d, e, (same_phase_iff d.phase healthy).0 up, ap (λ x. x.1) (switched ∙ written.1))
  ]
]

demoted :
    (previous id : Text) (at : Instant) (r : Rollout) {old : Deployment}
    → previous ≢ id
    → get previous (supersede (some previous) id at r).1 ≡ some old
    → old.phase ≢ healthy
demoted previous id at r {old} ne got up = elim (Option-cases (get previous r)) [
  | inl e ↦ let gone = supersede-missing previous id at r e in cc
  | inr (d, e) ↦
      let now = supersede-previous previous id at r ne e in
      let same : old ≡ (supersede_healthy at d).1 = cc in
      supersede_healthy-phase at d (rw same at up)
]

-- A promotion that succeeds was of a healthy deployment, which it makes the current one and leaves
-- as it was; the deployment that was current before, if it is another one, is not healthy any more.
pub promote-ok :
    (id : Text) (at : Instant) (r : Rollout)
    → (promote id at r).0 ≡ ok tt
    → let after = (promote id at r).1 in
      (after.current ≡ some id)
      × ((d : Deployment) × (get id r ≡ some d) × (d.phase ≡ healthy) × (get id after ≡ some d))
      × ((previous : Text) (old : Deployment)
          → r.current ≡ some previous
          → previous ≢ id
          → get previous after ≡ some old
          → old.phase ≢ healthy)
unfolding get
promote-ok id at r h =
    let (d, there, up, after) = promote-written id at r h in
    (
      rw after refl,
      (d, there, up, rw after (supersede-get r.current id at r ∙ there)),
      λ previous old cur ne got.
          demoted previous id at r {old = old} ne
            (subst (λ c. get previous (supersede c id at r).1 ≡ some old) cur (rw after at got)),
    )
