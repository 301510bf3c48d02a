-- ===== src/Provider/Operations.antt =====
-- `ProviderKind`, `ProviderAction`, `ProviderOperation` and `ProviderObservation`
-- (crates/labrys-core/src/provider.rs).
use labrys.Base.{
  ℕ, ◌+◌, ◌^◌, ◌-◌, min, max, Bool, true, false, not, ◌||◌, Option, none, some, List, [], ◌++◌,
  Text, text, text_eq, is_blank, contains, Result, ok, err, capability_binding, approval_required,
  if◌then◌else◌,
}
use labrys.Resource.{ResourcePhase, ready, redact_reason}
use labrys.Runtime.{ExplicitApproval, is_refused}

pub data ProviderKind : Type 0 where
  postgres auth file_storage object_storage generic : ProviderKind

unfoldable pub supplies : ProviderKind → Text → Bool
supplies postgres capability =
    text_eq capability (text "database.postgres") || text_eq capability (text "database")
supplies auth capability =
    text_eq capability (text "auth") || text_eq capability (text "auth.session")
supplies file_storage capability =
    text_eq capability (text "storage.file") || text_eq capability (text "storage")
supplies object_storage capability =
    text_eq capability (text "storage.object") || text_eq capability (text "storage")
supplies generic capability = true

pub data ProviderAction : Type 0 where
  provision readiness_check replace migrate adopt delete : ProviderAction

unfoldable pub is_destructive : ProviderAction → Bool
is_destructive delete = true
is_destructive replace = true
is_destructive migrate = true
is_destructive adopt = true
is_destructive _ = false

unfoldable pub action_label : ProviderAction → Text
action_label provision = text "provision"
action_label readiness_check = text "readiness-check"
action_label replace = text "replace"
action_label migrate = text "migrate"
action_label adopt = text "adopt"
action_label delete = text "delete"

pub record ProviderOperation : Type 0 where
  pub application_id : Text
  pub environment_id : Option Text
  pub resource_id : Text
  pub capability : Text
  pub provider_key : Text
  pub kind : ProviderKind
  pub action : ProviderAction
  pub idempotency_key : Text
  pub trace_id : Text
  pub secret_refs : List Text
  pub attempt : ℕ  -- u32

-- The operation that a plan makes, with its first attempt.
abbrev pub first_attempt :
    Text
    → Option Text
    → Text
    → Text
    → Text
    → ProviderKind
    → ProviderAction
    → Text
    → ProviderOperation
first_attempt application_id environment_id resource_id capability provider_key kind action
      trace_id =
    record {
      application_id = application_id;
      environment_id = environment_id;
      resource_id = resource_id;
      capability = capability;
      provider_key = provider_key;
      kind = kind;
      action = action;
      idempotency_key =
          text "res_"
          ++ (resource_id
              ++ (text ":"
                  ++ (provider_key
                      ++ (text ":" ++ (action_label action ++ (text ":" ++ trace_id))))));
      trace_id = trace_id;
      secret_refs = [];
      attempt = 1;
    }

unfoldable pub plan :
    Text
    → Option Text
    → Text
    → Text
    → Text
    → ProviderKind
    → ProviderAction
    → Text
    → Result ProviderOperation
plan application_id environment_id resource_id capability provider_key kind action trace_id =
    if is_blank capability
    then err capability_binding
    else if is_blank provider_key
    then err capability_binding
    else if is_blank trace_id
    then err capability_binding
    else if not (supplies kind capability)
    then err capability_binding
    else ok (
        first_attempt application_id environment_id resource_id capability provider_key kind action
          trace_id)

unfoldable pub with_secret_refs : ProviderOperation → List Text → ProviderOperation
with_secret_refs op refs = record op { secret_refs = refs }

unfoldable pub with_attempt : ProviderOperation → ℕ → ProviderOperation
with_attempt op attempt = record op { attempt = max attempt 1 }

-- The summary of the approval names the resource or the capability.
abbrev pub names_scope : ProviderOperation → ExplicitApproval → Bool
names_scope op approval =
    contains (text "res_" ++ op.resource_id) approval.proposal_summary
    || contains op.capability approval.proposal_summary

unfoldable pub require_approval : ProviderOperation → Option ExplicitApproval → Result (Unit {0})
require_approval op none = if not (is_destructive op.action) then ok tt else err approval_required
require_approval op (some approval) =
    if not (is_destructive op.action)
    then ok tt
    else if is_refused approval
    then err approval_required
    else if not (names_scope op approval)
    then err approval_required
    else ok tt

pub data ProviderObservation : Type 0 where
  accepted observed_ready degraded : Text → ProviderObservation
  failed : Text → Text → ProviderObservation

unfoldable pub failure_recovery : Text
failure_recovery =
    text
      "retry with backoff; inspect redacted provider diagnostics and re-run the platform readiness probe before promoting"

unfoldable pub sanitize_failure : Text → List Text → Text × Text
unfolding failure_recovery
sanitize_failure reason secrets = (redact_reason reason secrets, failure_recovery)

unfoldable pub observed_failure : Text → List Text → ProviderObservation
unfolding sanitize_failure
observed_failure reason secrets =
    failed (sanitize_failure reason secrets).0 (sanitize_failure reason secrets).1

unfoldable pub target_phase : ProviderObservation → ResourcePhase
target_phase (accepted detail) = ResourcePhase.provisioning
target_phase (observed_ready detail) = ready
target_phase (degraded reason) = ResourcePhase.degraded
target_phase (failed reason recovery) = ResourcePhase.failed

-- `claims_ignored.saturating_add(1)` on u32.
unfoldable pub note_agent_claim_ignored : ℕ → ℕ
note_agent_claim_ignored claims_ignored = min (claims_ignored + 1) (2 ^ 32 - 1)
