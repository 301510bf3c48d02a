-- ===== src/Deployment/Lifecycle.antt =====
-- `Deployment` and its methods (crates/labrys-core/src/deployment.rs).
use labrys.Base.{
  ◌++◌, Bool, not, Option, none, some, List, [], ◌∷◌, Text, text, push, last, Result, ok, err,
  panic, CoreError, deployment, Method, require, gets, modify, lift, ◌>>=◌, ◌>>◌, if◌then◌else◌,
}
use labrys.Base.Clock.{Instant}
use labrys.Resource.{redact_reason}
use labrys.Runtime.{
  is_production, RuntimeConfig, BuildResult, is_success, Endpoint, HealthStatus, starting,
  unhealthy,
}
use labrys.Deployment.Artifacts.{
  Revision, Image, label, LogLevel, info, error, DeploymentLog, build_image,
}
use labrys.Deployment.Phase.{
  DeploymentPhase, pending, building, deploying, healthy, degraded, failed, superseded, rolled_back,
  same_phase, serves_traffic, can_transition_to,
}

-- The field `from` of the source, and its `to`, are spelled in full.
pub record DeploymentTransition : Type 0 where
  pub from_phase : DeploymentPhase
  pub to_phase : DeploymentPhase
  pub at : Instant
  pub reason : Option Text

pub record Deployment : Type 0 where
  pub id : Text
  pub application_id : Text
  pub environment_id : Text
  pub revision : Revision
  pub build : Option BuildResult
  pub image : Option Image
  pub runtime : RuntimeConfig
  pub resources : List Text
  pub endpoint : Option Endpoint
  pub health : HealthStatus
  pub phase : DeploymentPhase
  pub logs : List DeploymentLog
  pub rollback_target : Option Text
  pub transitions : List DeploymentTransition

-- A deployment as `Deployment::new` makes it; the fresh identifier is an argument.
abbrev pub pending_deployment :
    Text → Text → Text → Revision → RuntimeConfig → List Text → Option Text → Instant → Deployment
pending_deployment fresh application_id environment_id revision runtime resources target at =
    record {
      id = fresh;
      application_id = application_id;
      environment_id = environment_id;
      revision = revision;
      build = none;
      image = none;
      runtime = runtime;
      resources = resources;
      endpoint = none;
      health = starting;
      phase = pending;
      logs = [];
      rollback_target = target;
      transitions =
          record { from_phase = pending; to_phase = pending; at = at; reason = none } ∷ [];
    }

unfoldable pub new_deployment :
    Text
    → Text
    → Text
    → Revision
    → RuntimeConfig
    → List Text
    → Option Text
    → Instant
    → Result Deployment
new_deployment fresh application_id environment_id revision runtime resources target at =
    if not (is_production runtime.profile)
    then err deployment
    else ok (
        pending_deployment fresh application_id environment_id revision runtime resources target at)

-- `self.transitions.last().expect(..).to`.
unfoldable pub latest_phase : List DeploymentTransition → Result DeploymentPhase
latest_phase ts = elim (last ts) [ some t ↦ ok t.to_phase | none ↦ panic ]

unfoldable pub move_to : DeploymentPhase → Option Text → Instant → Method Deployment (Unit {0})
move_to next reason at = do
  phase ← gets (λ d. d.phase)
  require (can_transition_to phase next) CoreError.deployment
  require (not (same_phase next phase)) CoreError.deployment
  modify (λ d. record d { phase = next })
  from ← gets (λ d. latest_phase d.transitions)
  from_phase ← lift from
  let t : DeploymentTransition = record {
    from_phase = from_phase;
    to_phase = next;
    at = at;
    reason = reason;
  }
  modify (λ d. record d { transitions = push d.transitions t })

unfoldable pub start_build : Instant → Method Deployment (Unit {0})
start_build at = move_to building none at

unfoldable pub push_log : LogLevel → Text → Instant → Deployment → Deployment
push_log level message at d = record d {
  logs = push d.logs (record { level = level; message = message; at = at });
}

-- The rest of `record_build` after a failed and after a successful build.
unfoldable pub record_failed_build :
    BuildResult → List Text → Instant → Method Deployment (Unit {0})
record_failed_build build secrets at = do
  modify (push_log error (redact_reason build.detail secrets) at)
  move_to failed (some (redact_reason build.detail secrets)) at

unfoldable pub store_image : Instant → Image → Method Deployment (Unit {0})
store_image at image = do
  let message = text "image " ++ (image.digest ++ (text " built from " ++ label image.source))
  modify (push_log info message at)
  modify (λ d. record d { image = some image })
  move_to deploying none at

unfoldable pub record_built_image : BuildResult → Instant → Method Deployment (Unit {0})
unfolding store_image
record_built_image build at = do
  built ← gets (λ d. build_image d.runtime build d.revision)
  lift built >>= store_image at

unfoldable pub record_build : BuildResult → List Text → Instant → Method Deployment (Unit {0})
unfolding record_failed_build record_built_image
record_build build secrets at = do
  phase ← gets (λ d. d.phase)
  require (same_phase phase building) CoreError.deployment
  modify (λ d. record d { build = some build })
  if is_success build then record_built_image build at else record_failed_build build secrets at

abbrev pub unhealthy_target : DeploymentPhase → DeploymentPhase
unhealthy_target phase = if same_phase phase deploying then failed else degraded

unfoldable pub record_health : HealthStatus → List Text → Instant → Method Deployment (Unit {0})
record_health HealthStatus.healthy secrets at = do
  modify (λ d. record d { health = HealthStatus.healthy })
  move_to healthy none at
record_health (unhealthy reason) secrets at = do
  target ← gets (λ d. unhealthy_target d.phase)
  modify (λ d. record d { health = unhealthy (redact_reason reason secrets) })
  move_to target (some (redact_reason reason secrets)) at
record_health starting secrets at = modify (λ d. record d { health = starting })
record_health (HealthStatus.unknown reason) secrets at =
    modify (λ d. record d { health = HealthStatus.unknown reason })

unfoldable pub mark_superseded : Instant → Method Deployment (Unit {0})
mark_superseded at = move_to superseded (some (text "newer revision promoted")) at

unfoldable pub mark_rolled_back : Text → Instant → Method Deployment (Unit {0})
mark_rolled_back reason at = move_to rolled_back (some reason) at

unfoldable pub attach_endpoint : Endpoint → Method Deployment (Unit {0})
attach_endpoint endpoint = do
  require endpoint.exposed CoreError.deployment
  modify (λ d. record d { endpoint = some endpoint })

unfoldable pub is_promoted : Deployment → Bool
unfolding serves_traffic
is_promoted d = serves_traffic d.phase
