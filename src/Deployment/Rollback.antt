-- ===== src/Deployment/Rollback.antt =====
-- `RollbackPlan`, `plan_rollback`, `select_rollback_target`, `execute_rollback` and `attach_domain`
-- (crates/labrys-core/src/deployment.rs).
use labrys.Base.{
  Bool, true, false, not, ◌&&◌, ◌||◌, Option, none, some, List, [], ◌∷◌, ◌++◌, Text, text, text_eq,
  map, push, is_some, Result, ok, err, panic, CoreError, approval_required, Method, pure, require,
  gets, modify, lift, ◌>>=◌, ◌>>◌, if◌then◌else◌,
}
use labrys.Base.Clock.{Instant}
use labrys.Runtime.{ExplicitApproval, is_refused}
use labrys.Deployment.Artifacts.{Domain, is_routable}
use labrys.Deployment.Phase.{
  DeploymentPhase, healthy, degraded, failed, superseded, rolled_back, same_phase,
}
use labrys.Deployment.Lifecycle.{Deployment, mark_rolled_back, is_promoted}
use labrys.Deployment.Rollouts.{Rollout, get, on_deployment, find_last, id_of, found}

pub data RollbackKind : Type 0 where
  source_rollback deployment_rollback configuration_rollback : RollbackKind

unfoldable pub touches_runtime_image : RollbackKind → Bool
touches_runtime_image deployment_rollback = true
touches_runtime_image _ = false

abbrev pub is_configuration : RollbackKind → Bool
is_configuration configuration_rollback = true
is_configuration _ = false

pub record RollbackPlan : Type 0 where
  pub kind : RollbackKind
  pub source_id : Text  -- the field `from`
  pub target_id : Text  -- the field `to`
  pub warnings : List Text
  pub migration_in_delta : Bool
  pub requires_approval : Bool

unfoldable pub database_data_warning : Text
database_data_warning =
    text
      "deployment rollback restores the application image only; database data is not automatically rolled back. Review migrations applied since the target revision and restore data through an explicit, approved data operation."

unfoldable pub configuration_data_warning : Text
configuration_data_warning =
    text
      "configuration rollback changes platform configuration only; it does not revert the running image or database data."

unfoldable pub kind_warning : RollbackKind → Text
unfolding database_data_warning configuration_data_warning
kind_warning deployment_rollback = database_data_warning
kind_warning source_rollback =
    text
      "source rollback rebuilds from an earlier revision; it does not revert the currently running image until the rebuild is promoted"
kind_warning configuration_rollback = configuration_data_warning

unfoldable pub migration_warning : Text
migration_warning =
    text
      "the delta includes a database migration; schema and data may be ahead of the rollback target"

unfoldable pub warnings_for : RollbackKind → Bool → List Text
unfolding kind_warning migration_warning
warnings_for kind migration =
    if migration && not (is_configuration kind)
    then kind_warning kind ∷ migration_warning ∷ []
    else kind_warning kind ∷ []

unfoldable pub planned : RollbackKind → Deployment → Deployment → RollbackPlan
unfolding warnings_for
planned kind from to = record {
  kind = kind;
  source_id = from.id;
  target_id = to.id;
  warnings = warnings_for kind from.revision.introduces_migration;
  migration_in_delta = from.revision.introduces_migration;
  requires_approval = true;
}

unfoldable pub plan_rollback : RollbackKind → Deployment → Deployment → Result RollbackPlan
unfolding planned
plan_rollback kind from to =
    if text_eq from.id to.id
    then err CoreError.deployment
    else if not (is_some to.image)
    then err CoreError.deployment
    else ok (planned kind from to)

abbrev pub is_candidate : Text → Deployment → Bool
is_candidate current d =
    not (text_eq d.id current) && (is_some d.image && not (same_phase d.phase failed))

unfoldable pub select_rollback_target : Rollout → Text → Option Text
select_rollback_target r current = id_of (find_last (is_candidate current) r.deployments)

pub record RollbackOutcome : Type 0 where
  pub kind : RollbackKind
  pub source_id : Text
  pub target_id : Text
  pub traffic_moved : Bool
  pub detail : Text

-- `warnings.join(" | ")`.
unfoldable pub joined : List Text → Text
joined [] = []
joined (w ∷ []) = w
joined (w ∷ v ∷ ws) = w ++ (text " | " ++ joined (v ∷ ws))

abbrev pub is_safe_target : DeploymentPhase → Bool
is_safe_target phase =
    same_phase phase superseded || same_phase phase rolled_back || same_phase phase healthy

-- The write to the source of the traffic, and to its target, whose phase was read before.
unfoldable pub retire : Text → Instant → Method Deployment (Unit {0})
retire reason at d =
    if same_phase d.phase healthy || same_phase d.phase degraded
    then mark_rolled_back reason at d
    else (ok tt, d)

unfoldable pub restore : DeploymentPhase → Instant → Deployment → Deployment
restore target_phase at d = if same_phase d.phase healthy then d else record d {
  phase = healthy;
  transitions = push d.transitions (record {
    from_phase = target_phase;
    to_phase = healthy;
    at = at;
    reason = some (text "restored by rollback");
  });
}

abbrev pub repoint : Text → Text → Domain → Domain
repoint from to domain = elim domain.serving [
  | none ↦ domain
  | some id ↦ if text_eq id from then record domain { serving = some to } else domain
]

-- `rollout` and `domains`, the two objects that `execute_rollback` may write.
pub record Traffic : Type 0 where
  pub rollout : Rollout
  pub domains : List Domain

abbrev pub outcome : RollbackPlan → Bool → Text → RollbackOutcome
outcome plan traffic_moved detail = record {
  kind = plan.kind;
  source_id = plan.source_id;
  target_id = plan.target_id;
  traffic_moved = traffic_moved;
  detail = detail;
}

-- `execute_rollback` from the lookup of the target on: what is done to the rollout.
unfoldable pub move_traffic : RollbackPlan → Text → Instant → Method Rollout (Unit {0})
unfolding get retire restore
move_traffic plan approver at = do
  looked_up ← gets (λ r. found (get plan.target_id r))
  target ← lift looked_up
  require (is_safe_target target.phase) CoreError.deployment
  let reason = text "rolled back to dep_" ++ (plan.target_id ++ (text " by " ++ approver))
  on_deployment plan.source_id (retire reason at)
  on_deployment plan.target_id (λ d. (ok tt, restore target.phase at d))
  modify (λ r. record r { current = some plan.target_id })

-- What follows once the rollout has been written: the domains are pointed at the target.
unfoldable pub repointed : RollbackPlan → Result (Unit {0}) → Method Traffic RollbackOutcome
unfolding database_data_warning
repointed plan (ok _) t = (
  ok (outcome plan true database_data_warning),
  record t { domains = map (repoint plan.source_id plan.target_id) t.domains },
)
repointed plan (err e) t = (err e, t)
repointed plan panic t = (panic, t)

unfoldable pub repoint_traffic : RollbackPlan → Text → Instant → Method Traffic RollbackOutcome
unfolding move_traffic repointed
repoint_traffic plan approver at t =
    let (moved, rollout) = move_traffic plan approver at t.rollout in
    repointed plan moved (record t { rollout = rollout })

unfoldable pub execute_rollback :
    RollbackPlan → ExplicitApproval → Instant → Method Traffic RollbackOutcome
unfolding repoint_traffic touches_runtime_image joined
execute_rollback plan approval at = do
  require (not (is_refused approval)) approval_required
  if touches_runtime_image plan.kind
      then repoint_traffic plan approval.approver at
      else pure (outcome plan false (joined plan.warnings))

unfoldable pub attach_domain : Deployment → ExplicitApproval → Method Domain (Unit {0})
unfolding is_routable is_promoted
attach_domain d approval = do
  require (not (is_refused approval)) approval_required
  routable ← gets is_routable
  require routable CoreError.deployment
  require (is_promoted d) CoreError.deployment
  modify (λ domain. record domain { serving = some d.id })
