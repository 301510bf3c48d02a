-- ===== src/Deployment/Gate.antt =====
-- What the gates of a deployment let through: the artifact, the health gate and the domain gate.
use mathlib.Core.Path.{subst}
use labrys.Base.{
  ◌≢◌, ◌≡◌, refl, sym, ap, ◌∙◌, inl, inr, ◌⊎◌, ◌↔◌, true, false, not, ◌++◌, Option, none, some, [],
  ◌∷◌, Text, text, is_empty, List, ok, arith, Bool-cases, Option-cases, starts_with, is_some, is_ok,
}
use labrys.Base.Clock.{Instant}
use labrys.Runtime.{
  RuntimeConfig, production, RuntimeProfile, is_production, BuildResult, is_success, Endpoint,
  HealthStatus, starting, unhealthy, ExplicitApproval, is_refused,
}
use labrys.Resource.{redact_reason}
use labrys.Deployment.Artifacts.{
  Revision, Image, is_addressable, artifact, build_image, Domain, is_routable,
}
use labrys.Deployment.Phase.{
  DeploymentPhase, building, deploying, healthy, degraded, failed, superseded, rolled_back,
  same_phase, can_transition_to, serves_traffic,
}
use labrys.Deployment.Lifecycle.{
  Deployment, unhealthy_target, move_to, start_build, record_build, store_image, record_built_image,
  record_failed_build, record_health, mark_superseded, mark_rolled_back, attach_endpoint,
  is_promoted, push_log,
}
use labrys.Deployment.Rollback.{attach_domain}

pub same_phase_iff : (p q : DeploymentPhase) → (same_phase p q ≡ true) ↔ (p ≡ q)
same_phase_iff p q = ground arith

not_empty : (base : Text) (rest : Text) → not (is_empty (base ++ (text "@" ++ rest))) ≡ true
not_empty [] rest = refl
not_empty (c ∷ base) rest = refl

production_iff : (p : RuntimeProfile) → (is_production p ≡ true) ↔ (p ≡ production)
production_iff p = ground arith

artifact-addressable :
    (config : RuntimeConfig) (base : Text) (revision : Revision)
    → is_addressable (artifact config base revision) ≡ true
unfolding is_addressable artifact starts_with
artifact-addressable config base revision = not_empty base _

build_image-artifact :
    (config : RuntimeConfig) (build : BuildResult) (revision : Revision) {image : Image}
    → build_image config build revision ≡ ok image
    → (base : Text) × (artifact config base revision ≡ image)
unfolding build_image
build_image-artifact config build revision {image} h =
    elim (Bool-cases (is_production config.profile)) [
      | inr e ↦ absurd (ground arith)
      | inl e ↦ elim (Bool-cases (is_success build)) [
        | inr f ↦ absurd (ground arith)
        | inl f ↦ elim (Option-cases config.oci_image) [
          | inl g ↦ absurd (ground arith)
          | inr g ↦ (g.0, ground arith)
        ]
      ]
    ]

-- What `build_image` needs: a production profile, a successful build and an image reference.
abbrev pub IsBuildable : RuntimeConfig → BuildResult → Type 0
IsBuildable config build =
    (config.profile ≡ production) × (is_success build ≡ true) × (is_some config.oci_image ≡ true)

-- The image is addressable by digest, of the runtime's kind, and names its revision.
abbrev pub Keeps : RuntimeConfig → Revision → Image → Type 0
Keeps config revision image =
    (is_addressable image ≡ true)
    × (image.runtime_kind ≡ config.kind)
    × (image.revision_sha ≡ revision.source_sha)

-- `build_image` returns an image exactly for a successful build under a production profile that
-- has an image reference; the image is addressable by digest, is of the runtime's kind, and names
-- the revision that it was built from.
pub build_image_lem :
    (config : RuntimeConfig) (build : BuildResult) (revision : Revision)
    → ((is_ok (build_image config build revision) ≡ true) ↔ IsBuildable config build)
      × ((image : Image)
          → build_image config build revision ≡ ok image
          → Keeps config revision image)
unfolding build_image artifact
build_image_lem config build revision = (
  ground (arith, production_iff config.profile),
  λ image h.
      let (base, same) = build_image-artifact config build revision h in
      subst (Keeps config revision) same (artifact-addressable config base revision, refl, refl),
)

-- The calls that drive one deployment, with their arguments.
pub data Call : Type 0 where
  starting_build : Instant → Call
  building_done : BuildResult → List Text → Instant → Call
  probing : HealthStatus → List Text → Instant → Call
  superseding : Instant → Call
  rolling_back : Text → Instant → Call
  attaching : Endpoint → Call

abbrev pub call : Call → Deployment → Deployment
call (starting_build at) d = (start_build at d).1
call (building_done build secrets at) d = (record_build build secrets at d).1
call (probing status secrets at) d = (record_health status secrets at d).1
call (superseding at) d = (mark_superseded at d).1
call (rolling_back reason at) d = (mark_rolled_back reason at d).1
call (attaching endpoint) d = (attach_endpoint endpoint d).1

-- A call that reaches a phase other than the one before is a legal move to it.
pub move_to-phase :
    (next : DeploymentPhase) (reason : Option Text) (at : Instant) (d : Deployment)
    → ((move_to next reason at d).1.phase ≡ d.phase)
      ⊎ (((move_to next reason at d).1.phase ≡ next) × (can_transition_to d.phase next ≡ true))
unfolding move_to
move_to-phase next reason at d = ground arith

-- The phases that a call may lead to.
abbrev pub Leads : Call → DeploymentPhase → Type 0
Leads (starting_build at) q = q ≡ building
Leads (building_done build secrets at) q = (q ≡ deploying) ⊎ (q ≡ failed)
Leads (probing status secrets at) q =
    ((q ≡ healthy) × (status ≡ HealthStatus.healthy)) ⊎ ((q ≡ failed) ⊎ (q ≡ degraded))
Leads (superseding at) q = q ≡ superseded
Leads (rolling_back reason at) q = q ≡ rolled_back
Leads (attaching endpoint) q = ⊥

record_failed_build-phase :
    (build : BuildResult) (secrets : List Text) (at : Instant) (d : Deployment)
    → let q = (record_failed_build build secrets at d).1.phase in
      (q ≡ d.phase) ⊎ ((q ≡ failed) × (can_transition_to d.phase q ≡ true))
unfolding record_failed_build move_to push_log
record_failed_build-phase build secrets at d = ground arith

record_built_image-phase :
    (build : BuildResult) (at : Instant) (d : Deployment)
    → let q = (record_built_image build at d).1.phase in
      (q ≡ d.phase) ⊎ ((q ≡ deploying) × (can_transition_to d.phase q ≡ true))
unfolding record_built_image store_image move_to push_log
record_built_image-phase build at d = ground arith

call-phase :
    (c : Call) (d : Deployment)
    → let q = (call c d).phase in (q ≡ d.phase) ⊎ (Leads c q × (can_transition_to d.phase q ≡ true))
unfolding start_build record_build record_health mark_superseded mark_rolled_back attach_endpoint
call-phase (starting_build at) d = ground (arith, move_to-phase building none at d)
call-phase (building_done build secrets at) d =
    let d1 : Deployment = record d { build = some build } in
    ground
      (arith, record_failed_build-phase build secrets at d1, record_built_image-phase build at d1)
call-phase (probing HealthStatus.healthy secrets at) d =
    ground (arith, move_to-phase healthy none at (record d { health = HealthStatus.healthy }))
call-phase (probing (unhealthy reason) secrets at) d =
    let safe = redact_reason reason secrets in
    let target = unhealthy_target d.phase in
    let moved = move_to-phase target (some safe) at (record d { health = unhealthy safe }) in
    ground (arith, moved)
call-phase (probing starting secrets at) d = inl refl
call-phase (probing (HealthStatus.unknown reason) secrets at) d = inl refl
call-phase (superseding at) d =
    ground (arith, move_to-phase superseded (some (text "newer revision promoted")) at d)
call-phase (rolling_back reason at) d = ground (arith, move_to-phase rolled_back (some reason) at d)
call-phase (attaching endpoint) d = ground arith

Leads-healthy :
    (c : Call)
    → Leads c healthy
    → (secrets : List Text) × (at : Instant) × (c ≡ probing HealthStatus.healthy secrets at)
Leads-healthy (starting_build at) h = cc
Leads-healthy (building_done build secrets at) h = absurd (ground arith)
Leads-healthy (probing status secrets at) (inl (h, e)) =
    (secrets, at, ap (λ s. probing s secrets at) e)
Leads-healthy (probing status secrets at) (inr h) = absurd (ground arith)
Leads-healthy (superseding at) h = cc
Leads-healthy (rolling_back reason at) h = cc
Leads-healthy (attaching endpoint) h = absurd h

to_healthy :
    (p : DeploymentPhase) → can_transition_to p healthy ≡ true → (p ≡ deploying) ⊎ (p ≡ degraded)
unfolding can_transition_to
to_healthy p h = ground arith

-- Of the calls that drive one deployment, only the record of a healthy observation makes a
-- deployment healthy that was not, and only while it is deploying or degraded.
pub health_gate :
    (c : Call) (d : Deployment)
    → (call c d).phase ≡ healthy
    → d.phase ≢ healthy
    → ((secrets : List Text) × (at : Instant) × (c ≡ probing HealthStatus.healthy secrets at))
      × ((d.phase ≡ deploying) ⊎ (d.phase ≡ degraded))
health_gate c d h ne = elim (call-phase c d) [
  | inl same ↦ absurd (ne (sym same ∙ h))
  | inr (leads, legal) ↦
      (Leads-healthy c (subst (Leads c) h leads), to_healthy d.phase (rw h at legal))
]

-- `attach_domain` succeeds exactly with a granted and named approval, a routable hostname and a
-- healthy deployment; then the domain is served by that deployment, and otherwise it is unchanged.
pub attach_domain_lem :
    (d : Deployment) (approval : ExplicitApproval) (domain : Domain)
    → let (result, after) = attach_domain d approval domain in
      ((is_ok result ≡ true)
        ↔ ((is_refused approval ≡ false) × (is_routable domain ≡ true) × (d.phase ≡ healthy)))
      × (is_ok result ≡ true → after ≡ record domain { serving = some d.id })
      × (is_ok result ≡ false → after ≡ domain)
unfolding attach_domain is_promoted serves_traffic
attach_domain_lem d approval domain = ground (arith, same_phase_iff d.phase healthy)
