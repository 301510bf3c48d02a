-- ===== src/Scenarios/Controllers.antt =====
-- Health reports, controllers and probes.
use labrys.Base.{
  ◌≤◌, ◌≡◌, refl, ◌≢◌, true, false, Option, none, some, List, [], ◌∷◌, Text, text, All,
}
use labrys.Resource.{
  HealthState, degraded, healthy, failed, unknown, ready, platform_probe, FailureRecord,
}
use labrys.Retry.{default_policy}
use labrys.Queue.{new}
use labrys.Health.{HealthCheck, probe, agent_claim, has, aggregate_health}
use labrys.Health.Severity.{severity, aggregate_health_worst}
use labrys.Reconcile.{
  ObservedStatus, ApplicationController, ResourceController, reconcile_resource, observe_resource,
}
use labrys.Reconcile.Idempotence.{application, reconcile, reconcile_idem}
use labrys.Reconcile.Sync.{recovered_never_in_sync}
use labrys.Runtime.{generic, tier0, production, docker_default, RuntimeConfig}

abbrev states : List HealthState
states = healthy ∷ degraded ∷ unknown ∷ []

aggregate_health_worst_example :
    (states ≡ [] → aggregate_health states ≡ unknown)
    × (states ≢ [] → has (aggregate_health states) states ≡ true)
    × (states ≢ [] → All (λ s. severity s ≤ severity (aggregate_health states)) states)
aggregate_health_worst_example = aggregate_health_worst states

abbrev checks : List HealthCheck
checks = probe (text "http") healthy ∷ agent_claim (text "tests") failed ∷ []

abbrev shop : ApplicationController Text
shop = record {
  application_id = text "1";
  desired = record { version = 4; profiles = []; config = text "null" };
  observed = record {
    desired_version = 3;
    status = ObservedStatus.healthy;
    last_observed_at = 5;
    detail = none;
  };
}

abbrev no_debug : Option Text → Text
no_debug none = text "None"
no_debug (some t) = t

reconcile_idem_example :
    let q' = (reconcile no_debug (text "a1") (application shop) 10 new).1 in
    (reconcile no_debug (text "b2") (application shop) 20 q').1 ≡ q'
reconcile_idem_example =
    reconcile_idem no_debug (text "a1") (text "b2") (application shop) 10 20 new

abbrev first_failure : FailureRecord
first_failure = record {
  reason = text "timeout";
  policy = default_policy;
  attempts = 1;
  next_retry_at = 9;
}

abbrev recovering : ResourceController
recovering = record {
  resource = record {
    id = text "1";
    kind = text "postgres";
    desired_version = 2;
    phase = ready;
    generation = 1;
    failure = some first_failure;
    transitions = [];
  };
  desired_present = true;
  observed_present = none;
}

recovered_never_in_sync_example :
    let c' = (observe_resource true (some ready) platform_probe none 8 recovering).1 in
    (reconcile_resource (text "a1") c' 10 new).0.in_sync ≡ false
recovered_never_in_sync_example =
    recovered_never_in_sync (text "a1") recovering platform_probe none 8 10 new first_failure refl

abbrev web : RuntimeConfig
web = record {
  kind = generic;
  tier = tier0;
  profile = production;
  port = 8080;
  healthcheck_path = some (text "/health");
  dockerfile = none;
  run_command = [];
  oci_image = some (text "registry.local/shop");
  limits = docker_default;
}
