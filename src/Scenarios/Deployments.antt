-- ===== src/Scenarios/Deployments.antt =====
-- A rollout of two deployments, its rollback and its domain.
use labrys.Base.{
  ◌≡◌, ◌≢◌, refl, ◌⊎◌, inl, true, false, none, some, List, [], ◌∷◌, Text, text, text_eq, is_blank,
  is_whitespace, ok, err, CoreError, approval_required, is_some,
}
use labrys.Base.Clock.{Instant}
use labrys.Runtime.{
  generic, tier0, production, docker_default, RuntimeConfig, BuildResult, build_succeeded,
  HealthStatus, ExplicitApproval, is_refused, is_production,
}
use labrys.Deployment.{
  Revision, new_revision, Image, Domain, DeploymentPhase, generic_source, failed, record_health,
  move_to, can_transition_to, latest_phase, mark_superseded, mark_rolled_back, retire, restore,
  move_traffic, repoint_traffic, repointed, touches_runtime_image, RollbackOutcome, outcome,
  database_data_warning, deploying, healthy, degraded, superseded, rolled_back, Deployment,
  pending_deployment, new_deployment, Rollout, get, promote, deployment_rollback, RollbackPlan,
  planned, select_rollback_target, is_candidate, Traffic, execute_rollback,
}
use labrys.Deployment.Gate.{
  Call, starting_build, building_done, probing, superseding, call, health_gate,
}
use labrys.Deployment.Evidence.{IsSound, calls, new_deployment-calls-IsSound}
use labrys.Deployment.Promotion.{promote-ok}
use labrys.Deployment.Execution.{Repointed, execute_rollback-unchanged, execute_rollback-ok}
use labrys.Deployment.Targets.{IsLast, select_rollback_target-some}

abbrev web : RuntimeConfig
web = record {
  kind = generic;
  tier = tier0;
  profile = production;
  port = 8080;
  healthcheck_path = none;
  dockerfile = none;
  run_command = [];
  oci_image = some (text "shop");
  limits = docker_default;
}

abbrev revision : Revision
revision = new_revision (text "c0ffee") (text "cfg") none

abbrev build : BuildResult
build = build_succeeded (text "done")

abbrev story : List Call
story =
    starting_build 2
    ∷ building_done build [] 3
    ∷ probing HealthStatus.starting [] 4
    ∷ probing HealthStatus.healthy [] 5
    ∷ probing (HealthStatus.unhealthy (text "503")) [] 6
    ∷ superseding 7
    ∷ probing HealthStatus.healthy [] 8
    ∷ superseding 9
    ∷ []

abbrev first : Deployment
first = pending_deployment (text "d1") (text "1") (text "2") revision web [] none 1

first-new : new_deployment (text "d1") (text "1") (text "2") revision web [] none 1 ≡ ok first
unfolding new_deployment
first-new = refl

new_deployment-calls-IsSound_example :
    (is_production web.profile ≡ true) × IsSound (calls story first)
new_deployment-calls-IsSound_example =
    new_deployment-calls-IsSound story (text "d1") (text "1") (text "2") revision web [] none 1
      first-new

abbrev image : Image
image = record {
  reference = text "shop@sha256:00";
  digest = text "sha256:00";
  source = generic_source;
  runtime_kind = generic;
  revision_sha = text "c0ffee";
}

-- The first deployment was superseded, the second is healthy and serves the traffic.
abbrev stage : Text → DeploymentPhase → Deployment
stage id phase = record first { id = id; image = some image; phase = phase }

abbrev probed : Deployment
probed = stage (text "d1") deploying

probed-healthy : (call (probing HealthStatus.healthy [] 5) probed).phase ≡ healthy
unfolding record_health move_to can_transition_to latest_phase
probed-healthy = refl

health_gate_example :
    ((secrets : List Text) × (at : Instant) × (probing HealthStatus.healthy [] 5
        ≡ probing HealthStatus.healthy secrets at))
    × ((probed.phase ≡ deploying) ⊎ (probed.phase ≡ degraded))
health_gate_example =
    health_gate (probing HealthStatus.healthy [] 5) probed probed-healthy (λ h. cc)

abbrev fleet : Rollout
fleet = record {
  deployments = stage (text "d1") superseded ∷ stage (text "d2") healthy ∷ [];
  current = some (text "d2");
}

abbrev fresh_fleet : Rollout
fresh_fleet = record {
  deployments = stage (text "d1") healthy ∷ stage (text "d2") healthy ∷ [];
  current = some (text "d1");
}

fresh_fleet-ok : (promote (text "d2") 9 fresh_fleet).0 ≡ ok tt
unfolding promote get text_eq mark_superseded move_to can_transition_to latest_phase
fresh_fleet-ok = refl

promote-ok_example :
    let after = (promote (text "d2") 9 fresh_fleet).1 in
    (after.current ≡ some (text "d2"))
    × ((d : Deployment) × (get (text "d2") fresh_fleet ≡ some d)
        × (d.phase ≡ healthy)
        × (get (text "d2") after ≡ some d))
    × ((previous : Text) (old : Deployment)
        → fresh_fleet.current ≡ some previous
        → previous ≢ text "d2"
        → get previous after ≡ some old
        → old.phase ≢ healthy)
promote-ok_example = promote-ok (text "d2") 9 fresh_fleet fresh_fleet-ok

fleet-refuses : (promote (text "d1") 9 fleet).0 ≡ err CoreError.deployment
unfolding promote get text_eq
fleet-refuses = refl

abbrev back : RollbackPlan
back = planned deployment_rollback (stage (text "d2") healthy) (stage (text "d1") superseded)

abbrev domain : Domain
domain = record {
  id = text "n1";
  environment_id = text "2";
  hostname = text "shop.example";
  tls = true;
  serving = some (text "d2");
}

abbrev traffic : Traffic
traffic = record { rollout = fleet; domains = domain ∷ [] }

abbrev approval : ExplicitApproval
approval = record { approved = true; approver = text "ada"; proposal_summary = text "go back" }

abbrev nobody : ExplicitApproval
nobody = record { approved = true; approver = text "  "; proposal_summary = text "go back" }

traffic-refuses : (execute_rollback back nobody 9 traffic).0 ≡ err approval_required
unfolding execute_rollback is_blank is_whitespace
traffic-refuses = refl

execute_rollback-unchanged_example : (execute_rollback back nobody 9 traffic).1 ≡ traffic
execute_rollback-unchanged_example =
    execute_rollback-unchanged back nobody 9 traffic (inl (approval_required, traffic-refuses))

abbrev moved : RollbackOutcome
moved = outcome back true database_data_warning

traffic-moves : (execute_rollback back approval 9 traffic).0 ≡ ok moved
unfolding execute_rollback repoint_traffic repointed move_traffic get text_eq retire restore
    mark_rolled_back move_to can_transition_to latest_phase planned touches_runtime_image is_blank
    is_whitespace
traffic-moves = refl

back-kind : back.kind ≡ deployment_rollback
unfolding planned
back-kind = refl

execute_rollback-ok_example :
    (is_refused approval ≡ false)
    × (moved.traffic_moved ≡ true)
    × Repointed back 9 traffic approval.approver (execute_rollback back approval 9 traffic).1
execute_rollback-ok_example = execute_rollback-ok back approval 9 traffic back-kind traffic-moves

-- After a rollback of `d2` to `d1`: the rolled-back deployment is newer than the current one.
abbrev restored_fleet : Rollout
restored_fleet = record {
  deployments = stage (text "d1") healthy ∷ stage (text "d2") rolled_back ∷ [];
  current = some (text "d1");
}

fleet-selects : select_rollback_target restored_fleet (text "d1") ≡ some (text "d2")
unfolding select_rollback_target text_eq
fleet-selects = refl

select_rollback_target_example :
    (d : Deployment) × (d.id ≡ text "d2")
    × IsLast (is_candidate (text "d1")) d restored_fleet.deployments
    × (text "d2" ≢ text "d1")
    × (is_some d.image ≡ true)
    × (d.phase ≢ failed)
select_rollback_target_example =
    select_rollback_target-some restored_fleet (text "d1") fleet-selects
