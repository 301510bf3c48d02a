-- ===== src/Reconcile/Controllers.antt =====
-- `ApplicationController` and `ResourceController` (crates/labrys-core/src/controller.rs).
use labrys.Base.{
  ◌&&◌, ◌++◌, Bool, true, false, not, Option, none, some, List, [], ◌∷◌, Text, text, is_some, ok,
  err, panic, Method, if◌then◌else◌,
}
use labrys.Base.Clock.{Instant}
use labrys.Resource.{
  HealthState, ResourcePhase, ready, deleted, phase_eq, ObservationSource, Resource, FailureRecord,
  convergence_version, health,
}
use labrys.Resource as Res
use labrys.Queue.{decimal, provision, update, delete, JobQueue}
use labrys.Reconcile.Desired.{DesiredState, ObservedState, is_stale, is_status_healthy, status_name}
use labrys.Reconcile.Pass.{
  missing, stale, unhealthy, terminated, Drift, Reconciliation, no_drift, act, phase_name,
}

pub record ApplicationController (Value : Type 0) : Type 0 where
  pub application_id : Text
  pub desired : DesiredState Value
  pub observed : ObservedState

module _ {Value : Type 0} where
  -- The drift of an application: a stale observation, then a status that is not healthy.
  unfoldable pub application_drift : ApplicationController Value → List Drift
  unfolding is_stale
  application_drift c =
      (if is_stale c.observed c.desired
        then record {
          kind = stale;
          detail =
              text "observation at v"
              ++ (decimal c.observed.desired_version
                  ++ (text " lags desired v" ++ decimal c.desired.version));
        }
          ∷ []
        else [])
      ++ (if is_status_healthy c.observed.status
          then []
          else record {
            kind = unhealthy;
            detail = text "observed status " ++ status_name c.observed.status;
          }
            ∷ [])

  unfoldable pub reconcile_application :
      Text → ApplicationController Value → Instant → JobQueue → Reconciliation × JobQueue
  reconcile_application fresh c now q =
      let drift = application_drift c in
      let target = text "app_" ++ c.application_id in
      let (actions, q') =
        (if no_drift drift then ([], q) else act fresh target update c.desired.version now q) in
      (
        record {
          controller = text "application";
          target = target;
          desired_version = c.desired.version;
          observed_version = c.observed.desired_version;
          in_sync = no_drift drift;
          drift = drift;
          actions = actions;
          at = now;
        },
        q',
      )

pub record ResourceController : Type 0 where
  pub resource : Resource
  pub desired_present : Bool
  pub observed_present : Option Bool

unfoldable pub new_resource_controller : Resource → ResourceController
new_resource_controller resource = record {
  resource = resource;
  desired_present = true;
  observed_present = none;
}

-- `self.observed_present == Some(b)`.
abbrev pub observed_is : Bool → Option Bool → Bool
observed_is b none = false
observed_is true (some seen) = seen
observed_is false (some seen) = not seen

-- `{:?}` of an optional flag.
abbrev pub presence_name : Option Bool → Text
presence_name none = text "None"
presence_name (some true) = text "Some(true)"
presence_name (some false) = text "Some(false)"

-- `ResourceController::observe`: the presence is recorded before the phase is checked.
unfoldable pub observe_resource :
    Bool
    → Option ResourcePhase
    → ObservationSource
    → Option Text
    → Instant
    → Method ResourceController (Unit {0})
observe_resource present phase source reason at c =
    let seen = record c { observed_present = some present } in
    elim phase [
      | none ↦ (ok tt, seen)
      | some p ↦
          if phase_eq p c.resource.phase
          then (ok tt, seen)
          else let (r, resource') = Res.observe p source reason at c.resource in
            (
              elim r [ ok _ ↦ ok tt | err e ↦ err e | panic ↦ panic ],
              record seen { resource = resource' },
            )
    ]

unfoldable pub resource_health : ResourceController → HealthState
resource_health c =
    if observed_is false c.observed_present then HealthState.unknown else health c.resource.phase

abbrev pub is_missing : ResourceController → Bool
is_missing c = c.desired_present && not (observed_is true c.observed_present)

abbrev pub is_unwanted : ResourceController → Bool
is_unwanted c = not c.desired_present && not (phase_eq c.resource.phase deleted)

abbrev pub failure_drift : Option FailureRecord → List Drift
failure_drift none = []
failure_drift (some failure) =
    record {
      kind = terminated;
      detail =
          text "attempt "
          ++ (decimal failure.attempts
              ++ (text "/"
                  ++ (decimal failure.policy.max_attempts
                      ++ (text " failed: " ++ failure.reason))));
    }
    ∷ []

unfoldable pub resource_drift : ResourceController → List Drift
resource_drift c =
    (if is_missing c
      then record {
        kind = missing;
        detail =
            text "desired "
            ++ (c.resource.kind
                ++ (text " present at v"
                    ++ (decimal c.resource.desired_version
                        ++ (text " but observed " ++ presence_name c.observed_present))));
      }
        ∷ []
      else [])
    ++ (failure_drift c.resource.failure
        ++ ((if c.desired_present
                && (observed_is true c.observed_present
                    && (not (phase_eq c.resource.phase ready) && not (is_missing c)))
              then record {
                kind = unhealthy;
                detail = text "resource phase " ++ phase_name c.resource.phase;
              }
                ∷ []
              else [])
            ++ (if is_unwanted c
                then record {
                  kind = stale;
                  detail = text "resource should be deleted but is " ++ phase_name c.resource.phase;
                }
                  ∷ []
                else [])))

-- The two places where a pass enqueues exclude one another, so one fresh identifier serves both.
unfoldable pub reconcile_resource :
    Text → ResourceController → Instant → JobQueue → Reconciliation × JobQueue
reconcile_resource fresh c now q =
    let target = text "res_" ++ c.resource.id in
    let version = convergence_version c.resource in
    let (first, q1) =
      (if is_missing c then act fresh target provision version now q else ([], q)) in
    let (second, q2) =
      (if is_unwanted c then act fresh target delete version now q1 else ([], q1)) in
    (
      record {
        controller = text "resource";
        target = target;
        desired_version = c.resource.desired_version;
        observed_version = if is_some c.observed_present then c.resource.desired_version else 0;
        in_sync = no_drift (resource_drift c);
        drift = resource_drift c;
        actions = first ++ second;
        at = now;
      },
      q2,
    )
