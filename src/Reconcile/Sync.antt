-- ===== src/Reconcile/Sync.antt =====
-- When a pass reports its target in sync.
use labrys.Base.{◌≡◌, ◌↔◌, true, false, Option, none, some, Text, arith}
use labrys.Base.Clock.{Instant}
use labrys.Resource.{ready, deleted, ObservationSource, observe, FailureRecord}
use labrys.Queue.{JobQueue}
use labrys.Reconcile.Desired.{ObservedStatus, is_stale}
use labrys.Reconcile.Controllers.{
  ApplicationController, application_drift, reconcile_application, ResourceController,
  resource_drift, reconcile_resource, observe_resource,
}

module _ {Value : Type 0} where
  -- An application is in sync exactly when it was observed healthy at the desired version.
  pub application_in_sync :
      (fresh : Text) (c : ApplicationController Value) (now : Instant) (q : JobQueue)
      → ((reconcile_application fresh c now q).0.in_sync ≡ true) ↔ (
          (c.observed.desired_version ≡ c.desired.version)
          × (c.observed.status ≡ ObservedStatus.healthy))
  unfolding reconcile_application application_drift is_stale
  application_in_sync fresh c now q = ground arith

-- A resource is in sync exactly when it carries no failure and is where it is wanted: observed
-- present and ready, or deleted.
pub resource_in_sync :
    (fresh : Text) (c : ResourceController) (now : Instant) (q : JobQueue)
    → ((reconcile_resource fresh c now q).0.in_sync ≡ true) ↔ (
        (c.resource.failure ≡ none)
        × (c.desired_present ≡ true → (c.observed_present ≡ some true) × (c.resource.phase ≡ ready))
        × (c.desired_present ≡ false → c.resource.phase ≡ deleted))
unfolding reconcile_resource resource_drift
resource_in_sync fresh c now q = ground arith

-- A resource that carries a failure record is not in sync after an observation that it is present
-- and ready, be the observation accepted or refused.
pub recovered_never_in_sync :
    (fresh : Text) (c : ResourceController) (source : ObservationSource) (reason : Option Text)
    (at now : Instant) (q : JobQueue) (f : FailureRecord)
    → c.resource.failure ≡ some f
    → let c' = (observe_resource true (some ready) source reason at c).1 in
      (reconcile_resource fresh c' now q).0.in_sync ≡ false
unfolding reconcile_resource resource_drift observe_resource observe
recovered_never_in_sync fresh c source reason at now q f failed_once = ground arith
