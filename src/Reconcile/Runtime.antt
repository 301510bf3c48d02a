-- ===== src/Reconcile/Runtime.antt =====
-- `CapabilityController`, `PreviewController` and `DeploymentController`
-- (crates/labrys-core/src/controller.rs).
use labrys.Base.{
  ℕ, ◌+◌, ◌%◌, ◌^◌, ◌&&◌, ◌++◌, Bool, true, false, not, Option, none, some, List, [], ◌∷◌, Text,
  text, text_eq, is_some, if◌then◌else◌,
}
use labrys.Base.Clock.{Instant}
use labrys.Resource.{
  HealthState, healthy, paused, ResourcePhase, requested, ready, deleting, deleted, phase_eq,
  health,
}
use labrys.Queue.{provision, rollout, verify, JobQueue}
use labrys.Reconcile.Pass.{
  missing, stale, unhealthy, Drift, Reconciliation, no_drift, act, phase_name,
}

-- `u64::from(b)`.
abbrev pub of_bool : Bool → ℕ
of_bool true = 1
of_bool false = 0

-- `self.phase as u64`.
abbrev pub phase_index : ResourcePhase → ℕ
phase_index requested = 0
phase_index ResourcePhase.provisioning = 1
phase_index ready = 2
phase_index ResourcePhase.degraded = 3
phase_index ResourcePhase.failed = 4
phase_index deleting = 5
phase_index deleted = 6

pub record CapabilityController : Type 0 where
  pub capability : Text
  pub resource_id : Text
  pub desired_ready : Bool
  pub phase : ResourcePhase
  pub agent_claims_ignored : ℕ  -- u32

unfoldable pub new_capability_controller : Text → Text → CapabilityController
new_capability_controller capability resource_id = record {
  capability = capability;
  resource_id = resource_id;
  desired_ready = true;
  phase = ResourcePhase.provisioning;
  agent_claims_ignored = 0;
}

unfoldable pub observe_readiness : ResourcePhase → CapabilityController → CapabilityController
observe_readiness phase c = record c { phase = phase }

unfoldable pub accept_agent_completion : CapabilityController → CapabilityController
accept_agent_completion c = record c {
  agent_claims_ignored = (c.agent_claims_ignored + 1) % 2 ^ 32;
}

unfoldable pub capability_health : CapabilityController → HealthState
capability_health c = health c.phase

abbrev pub is_unready : CapabilityController → Bool
is_unready c = c.desired_ready && not (phase_eq c.phase ready)

unfoldable pub reconcile_capability :
    Text → CapabilityController → Instant → JobQueue → Reconciliation × JobQueue
reconcile_capability fresh c now q =
    let target = text "res_" ++ c.resource_id in
    let drift : List Drift =
      if is_unready c
      then record {
        kind = unhealthy;
        detail = text "capability '" ++ (c.capability ++ (text "' phase " ++ phase_name c.phase));
      }
        ∷ []
      else [] in
    let (actions, q') = (if is_unready c then act fresh target provision 1 now q else ([], q)) in
    (
      record {
        controller = text "capability";
        target = target;
        desired_version = of_bool c.desired_ready;
        observed_version = phase_index c.phase;
        in_sync = no_drift drift;
        drift = drift;
        actions = actions;
        at = now;
      },
      q',
    )

pub record PreviewController : Type 0 where
  pub preview_id : Text
  pub desired_live : Bool
  pub observed_live : Bool
  pub observed_healthy : Bool

unfoldable pub new_preview_controller : Text → PreviewController
new_preview_controller preview_id = record {
  preview_id = preview_id;
  desired_live = true;
  observed_live = false;
  observed_healthy = false;
}

unfoldable pub observe_preview : Bool → Bool → PreviewController → PreviewController
observe_preview live healthy_now c = record c {
  observed_live = live;
  observed_healthy = healthy_now;
}

unfoldable pub preview_health : PreviewController → HealthState
preview_health c =
    if not c.desired_live
    then paused
    else if not c.observed_live
    then HealthState.provisioning
    else if c.observed_healthy
    then healthy
    else HealthState.degraded

abbrev pub is_down : PreviewController → Bool
is_down c = c.desired_live && not c.observed_live

abbrev pub is_failing : PreviewController → Bool
is_failing c = c.desired_live && (c.observed_live && not c.observed_healthy)

-- The two places where a pass enqueues exclude one another, so one fresh identifier serves both.
unfoldable pub reconcile_preview :
    Text → PreviewController → Instant → JobQueue → Reconciliation × JobQueue
reconcile_preview fresh c now q =
    let target = text "prv_" ++ c.preview_id in
    let down : List Drift =
      if is_down c
      then record { kind = missing; detail = text "preview desired live but not running" } ∷ []
      else [] in
    let failing : List Drift =
      if is_failing c
      then record { kind = unhealthy; detail = text "preview failing health checks" } ∷ []
      else [] in
    let (first, q1) = (if is_down c then act fresh target provision 1 now q else ([], q)) in
    let (second, q2) = (if is_failing c then act fresh target verify 1 now q1 else ([], q1)) in
    (
      record {
        controller = text "preview";
        target = target;
        desired_version = of_bool c.desired_live;
        observed_version = of_bool c.observed_live;
        in_sync = no_drift (down ++ failing);
        drift = down ++ failing;
        actions = first ++ second;
        at = now;
      },
      q2,
    )

pub record DeploymentController : Type 0 where
  pub key : Text
  pub desired_artifact : Text
  pub observed_artifact : Option Text
  pub observed_ready : Bool

unfoldable pub new_deployment_controller : Text → Text → DeploymentController
new_deployment_controller key desired_artifact = record {
  key = key;
  desired_artifact = desired_artifact;
  observed_artifact = none;
  observed_ready = false;
}

unfoldable pub observe_deployment : Text → Bool → DeploymentController → DeploymentController
observe_deployment artifact ready_now c = record c {
  observed_artifact = some artifact;
  observed_ready = ready_now;
}

-- `self.observed_artifact.as_deref() == Some(..)`.
abbrev pub runs_artifact : Text → Option Text → Bool
runs_artifact desired none = false
runs_artifact desired (some observed) = text_eq observed desired

unfoldable pub deployment_health : DeploymentController → HealthState
deployment_health c =
    if not (is_some c.observed_artifact)
    then HealthState.unknown
    else if not c.observed_ready
    then HealthState.provisioning
    else if runs_artifact c.desired_artifact c.observed_artifact
    then healthy
    else HealthState.degraded

-- `{:?}` of a text is the standard library's escaping: a parameter of the detail.
unfoldable pub reconcile_deployment :
    (Option Text → Text)
    → Text
    → DeploymentController
    → Instant
    → JobQueue
    → Reconciliation × JobQueue
reconcile_deployment debug fresh c now q =
    let lags = not (runs_artifact c.desired_artifact c.observed_artifact) in
    let drift : List Drift =
      if lags
      then record {
        kind = stale;
        detail =
            text "observed "
            ++ (debug c.observed_artifact
                ++ (text " != desired '" ++ (c.desired_artifact ++ text "'")));
      }
        ∷ []
      else [] in
    let (actions, q') = (if lags then act fresh c.key rollout 1 now q else ([], q)) in
    (
      record {
        controller = text "deployment";
        target = c.key;
        desired_version = 1;
        observed_version = of_bool (is_some c.observed_artifact);
        in_sync = no_drift drift;
        drift = drift;
        actions = actions;
        at = now;
      },
      q',
    )
