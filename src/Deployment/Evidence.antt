-- ===== src/Deployment/Evidence.antt =====
-- The transition evidence of a deployment, and the image that it runs.
use mathlib.Core.Path.{subst}
use labrys.Base.{
  ◌≡◌, refl, inl, inr, Bool, true, false, Option, none, some, List, [], ◌∷◌, ◌++◌, Text, text, push,
  Result, ok, err, panic, lift, ◌>>=◌, deployment, arith, Bool-cases,
}
use labrys.Base.Clock.{Instant}
use labrys.Resource.{redact_reason}
use labrys.Runtime.{
  is_production, RuntimeConfig, BuildResult, is_success, HealthStatus, starting, unhealthy,
}
use labrys.Deployment.Artifacts.{Revision, Image, is_addressable, build_image, error, info, label}
use labrys.Deployment.Phase.{
  DeploymentPhase, pending, building, deploying, healthy, degraded, failed, superseded, rolled_back,
  same_phase, can_transition_to,
}
use labrys.Deployment.Lifecycle.{
  DeploymentTransition, Deployment, pending_deployment, new_deployment, unhealthy_target,
  latest_phase, move_to, start_build, record_build, record_built_image, store_image,
  record_failed_build, record_health, mark_superseded, mark_rolled_back, attach_endpoint, push_log,
}
use labrys.Deployment.Gate.{
  Call, starting_build, building_done, probing, superseding, rolling_back, attaching, call,
  build_image_lem,
}

-- Legal steps that join end to end, from `p` to `q`.
abbrev pub Chain : DeploymentPhase → List DeploymentTransition → DeploymentPhase → Type 0
Chain p [] q = p ≡ q
Chain p (t ∷ ts) q =
    (t.from_phase ≡ p) × (can_transition_to t.from_phase t.to_phase ≡ true) × Chain t.to_phase ts q

-- The evidence starts with the pending deployment and leads to the current phase.
abbrev pub Evidence : List DeploymentTransition → DeploymentPhase → Type 0
Evidence [] q = ⊥
Evidence (t ∷ ts) q = (t.to_phase ≡ pending) × Chain pending ts q

-- The phases in which an image has been started.
abbrev pub is_started : DeploymentPhase → Bool
is_started deploying = true
is_started healthy = true
is_started degraded = true
is_started superseded = true
is_started _ = false

abbrev pub HasImage : Option Image → Type 0
HasImage none = ⊥
HasImage (some image) = is_addressable image ≡ true

-- Legal evidence, and an image that is addressable by digest once the deployment was started.
abbrev pub IsSound : Deployment → Type 0
IsSound d = Evidence d.transitions d.phase × (is_started d.phase ≡ true → HasImage d.image)

latest_phase-Chain :
    (t : DeploymentTransition) (ts : List DeploymentTransition) {p q : DeploymentPhase}
    → t.to_phase ≡ p
    → Chain p ts q
    → latest_phase (t ∷ ts) ≡ ok q
unfolding latest_phase
latest_phase-Chain t [] e c = cc
latest_phase-Chain t (u ∷ ts) e c = latest_phase-Chain u ts refl c.2

pub latest_phase-Evidence :
    (ts : List DeploymentTransition) {q : DeploymentPhase} → Evidence ts q → latest_phase ts ≡ ok q
latest_phase-Evidence [] h = absurd h
latest_phase-Evidence (t ∷ ts) h = latest_phase-Chain t ts h.0 h.1

Chain-push :
    (ts : List DeploymentTransition) (t : DeploymentTransition) (p : DeploymentPhase)
    {q : DeploymentPhase}
    → Chain p ts q
    → t.from_phase ≡ q
    → can_transition_to q t.to_phase ≡ true
    → Chain p (push ts t) t.to_phase
Chain-push [] t p c e legal = ground arith
Chain-push (u ∷ ts) t p c e legal = (c.0, c.1, Chain-push ts t u.to_phase c.2 e legal)

Evidence-push :
    (ts : List DeploymentTransition) (t : DeploymentTransition) {q : DeploymentPhase}
    → Evidence ts q
    → t.from_phase ≡ q
    → can_transition_to q t.to_phase ≡ true
    → Evidence (push ts t) t.to_phase
Evidence-push [] t h e legal = absurd h
Evidence-push (u ∷ ts) t h e legal = (h.0, Chain-push ts t pending h.1 e legal)

moves-ne : (p q : DeploymentPhase) → can_transition_to p q ≡ true → same_phase q p ≡ false
unfolding can_transition_to
moves-ne p q h = ground arith

starts-from :
    (p q : DeploymentPhase)
    → can_transition_to p q ≡ true
    → is_started q ≡ true
    → same_phase q deploying ≡ false
    → is_started p ≡ true
unfolding can_transition_to
starts-from p q legal h ne = ground arith

-- The record that an accepted move writes.
abbrev pub evidence_of : Deployment → DeploymentPhase → Option Text → Instant → DeploymentTransition
evidence_of d next reason at = record {
  from_phase = d.phase;
  to_phase = next;
  at = at;
  reason = reason;
}

module _ (next : DeploymentPhase) (reason : Option Text) (at : Instant) where
  -- A legal move sets the phase and records it, from the phase that the deployment was in.
  pub move_to-legal :
      (d : Deployment)
      → Evidence d.transitions d.phase
      → can_transition_to d.phase next ≡ true
      → move_to next reason at d ≡ (
        ok tt,
        record d { phase = next; transitions = push d.transitions (evidence_of d next reason at) },
      )
  unfolding move_to
  move_to-legal d h legal =
      rw legal (rw (moves-ne d.phase next legal) (rw (latest_phase-Evidence d.transitions h) refl))

  -- An illegal one is an error, and changes nothing.
  pub move_to-illegal :
      (d : Deployment)
      → can_transition_to d.phase next ≡ false
      → move_to next reason at d ≡ (err deployment, d)
  unfolding move_to
  move_to-illegal d illegal = rw illegal

  -- Soundness is kept by a move to a phase whose image is there when it needs one.
  move_to-IsSound :
      (d : Deployment)
      → IsSound d
      → (can_transition_to d.phase next ≡ true → is_started next ≡ true → HasImage d.image)
      → IsSound (move_to next reason at d).1
  move_to-IsSound d h image = elim (Bool-cases (can_transition_to d.phase next)) [
    | inl legal ↦
        rw (move_to-legal d h.0 legal)
          (Evidence-push d.transitions (evidence_of d next reason at) h.0 refl legal, image legal)
    | inr illegal ↦ rw (move_to-illegal d illegal) h
  ]

  move_on-IsSound :
      (d : Deployment)
      → same_phase next deploying ≡ false
      → IsSound d
      → IsSound (move_to next reason at d).1
  move_on-IsSound d ne h =
      move_to-IsSound d h (λ legal s. h.1 (starts-from d.phase next legal s ne))

record_failed_build-IsSound :
    (build : BuildResult) (secrets : List Text) (at : Instant) (d : Deployment)
    → IsSound d
    → IsSound (record_failed_build build secrets at d).1
unfolding record_failed_build push_log
record_failed_build-IsSound build secrets at d h =
    let safe = redact_reason build.detail secrets in
    move_on-IsSound failed (some safe) at (push_log error safe at d) refl h

store_image-IsSound :
    (at : Instant) (image : Image) (d : Deployment)
    → IsSound d
    → is_addressable image ≡ true
    → IsSound (store_image at image d).1
unfolding store_image push_log
store_image-IsSound at image d h good =
    let message = text "image " ++ (image.digest ++ (text " built from " ++ label image.source)) in
    let d1 : Deployment = record (push_log info message at d) { image = some image } in
    move_to-IsSound deploying none at d1 (h.0, λ s. good) (λ legal s. good)

stored-IsSound :
    (built : Result Image) (at : Instant) (d : Deployment)
    → IsSound d
    → ((image : Image) → built ≡ ok image → is_addressable image ≡ true)
    → IsSound ((lift built >>= store_image at) d).1
stored-IsSound (ok image) at d h good = store_image-IsSound at image d h (good image refl)
stored-IsSound (err e) at d h good = h
stored-IsSound panic at d h good = h

record_build-IsSound :
    (build : BuildResult) (secrets : List Text) (at : Instant) (d : Deployment)
    → IsSound d
    → IsSound (record_build build secrets at d).1
unfolding record_build record_built_image
record_build-IsSound build secrets at d h =
    let d1 : Deployment = record d { build = some build } in
    let failing = record_failed_build-IsSound build secrets at d1 h in
    let built =
      stored-IsSound (build_image d.runtime build d.revision) at d1 h
        (λ image e. ((build_image_lem d.runtime build d.revision).1 image e).0) in
    elim (Bool-cases (same_phase d.phase building)) [
      | inr elsewhere ↦ rw elsewhere h
      | inl building_now ↦ elim (Bool-cases (is_success build)) [
        | inl done ↦ rw building_now (rw done built)
        | inr undone ↦ rw building_now (rw undone failing)
      ]
    ]

target-ne : (p : DeploymentPhase) → same_phase (unhealthy_target p) deploying ≡ false
target-ne p = ground arith

pub call-IsSound : (c : Call) (d : Deployment) → IsSound d → IsSound (call c d)
unfolding start_build record_health mark_superseded mark_rolled_back attach_endpoint
call-IsSound (starting_build at) d h = move_on-IsSound building none at d refl h
call-IsSound (building_done build secrets at) d h = record_build-IsSound build secrets at d h
call-IsSound (probing HealthStatus.healthy secrets at) d h =
    move_on-IsSound healthy none at (record d { health = HealthStatus.healthy }) refl h
call-IsSound (probing (unhealthy reason) secrets at) d h =
    let safe = redact_reason reason secrets in
    move_on-IsSound (unhealthy_target d.phase) (some safe) at (record d { health = unhealthy safe })
      (target-ne d.phase) h
call-IsSound (probing starting secrets at) d h = h
call-IsSound (probing (HealthStatus.unknown reason) secrets at) d h = h
call-IsSound (superseding at) d h =
    move_on-IsSound superseded (some (text "newer revision promoted")) at d refl h
call-IsSound (rolling_back reason at) d h = move_on-IsSound rolled_back (some reason) at d refl h
call-IsSound (attaching endpoint) d h = ground (arith, h)

abbrev pub calls : List Call → Deployment → Deployment
calls [] d = d
calls (c ∷ cs) d = calls cs (call c d)

pub calls-IsSound : (cs : List Call) (d : Deployment) → IsSound d → IsSound (calls cs d)
calls-IsSound [] d h = h
calls-IsSound (c ∷ cs) d h = calls-IsSound cs (call c d) (call-IsSound c d h)

-- A new deployment needs a production runtime. Whatever calls it has seen, accepted or refused, its
-- transition evidence starts at `pending`, joins end to end, follows the rollout graph and ends at
-- its phase; and it has an image that is addressable by digest while it is deploying, healthy,
-- degraded or superseded.
pub new_deployment-calls-IsSound :
    (cs : List Call) (fresh application environment : Text) (revision : Revision)
    (runtime : RuntimeConfig) (resources : List Text) (target : Option Text) (at : Instant)
    {d : Deployment}
    → new_deployment fresh application environment revision runtime resources target at ≡ ok d
    → (is_production runtime.profile ≡ true) × IsSound (calls cs d)
unfolding new_deployment
new_deployment-calls-IsSound cs fresh application environment revision runtime resources target at
      {d} h =
    let d0 =
      pending_deployment fresh application environment revision runtime resources target at in
    let sound : IsSound d0 = ((refl, refl), λ s. cc) in
    let same : d0 ≡ d = ground arith in
    (ground arith, calls-IsSound cs d (subst IsSound same sound))
