-- ===== src/Agent/Protocol.antt =====
-- The protocol's vocabulary, the policy, and the backend contract (crates/labrys-core/src/agent.rs).
use labrys.Base.{
  ℕ, ◌==◌, Bool, true, false, ◌&&◌, Option, none, some, List, [], ◌∷◌, Text, text, text_eq, ltb,
  push, Result, ok, err, policy_denied, protocol_version, if◌then◌else◌,
}

abbrev pub agent_protocol_version : ℕ
agent_protocol_version = 1

pub data AgentBackendKind : Type 0 where
  native external : AgentBackendKind

abbrev pub backend_kind_eq : AgentBackendKind → AgentBackendKind → Bool
backend_kind_eq native native = true
backend_kind_eq external external = true
backend_kind_eq _ _ = false

pub record BackendIdentity : Type 0 where
  pub kind : AgentBackendKind
  pub name : Text

abbrev pub identity_eq : BackendIdentity → BackendIdentity → Bool
identity_eq a b = backend_kind_eq a.kind b.kind && text_eq a.name b.name

unfoldable pub native_identity : BackendIdentity
native_identity = record { kind = native; name = text "labrys-native" }

unfoldable pub external_identity : Text → BackendIdentity
external_identity name = record { kind = external; name = name }

pub data AgentEventKind : Type 0 where
  planning file_changed command_run capability_requested build preview : AgentEventKind
  deployment verification approval_requested denied interrupted resumed : AgentEventKind
  timed_out completed : AgentEventKind

unfoldable pub event_name : AgentEventKind → Text
event_name planning = text "planning"
event_name file_changed = text "file_changed"
event_name command_run = text "command_run"
event_name capability_requested = text "capability_requested"
event_name build = text "build"
event_name preview = text "preview"
event_name deployment = text "deployment"
event_name verification = text "verification"
event_name approval_requested = text "approval_requested"
event_name denied = text "denied"
event_name interrupted = text "interrupted"
event_name resumed = text "resumed"
event_name timed_out = text "timed_out"
event_name completed = text "completed"

pub record AgentEvent : Type 0 where
  pub sequence : ℕ  -- u64
  pub session_id : Text
  pub backend : BackendIdentity
  pub kind : AgentEventKind
  pub detail : Text

pub record SecretReference : Type 0 where
  pub ref_id : Text
  pub redacted_hint : Option Text

pub data ToolTier : Type 0 where
  platform_api framework_tool generic_tool raw_shell : ToolTier

unfoldable pub tool_rank : ToolTier → ℕ
tool_rank platform_api = 0
tool_rank framework_tool = 1
tool_rank generic_tool = 2
tool_rank raw_shell = 3

-- `min_by_key`: of several tools of the least rank the first.
abbrev pub preferred_from : ToolTier → List ToolTier → ToolTier
unfolding tool_rank
preferred_from best [] = best
preferred_from best (t ∷ ts) =
    preferred_from (if ltb (tool_rank t) (tool_rank best) then t else best) ts

unfoldable pub select_preferred_tool : List ToolTier → Option ToolTier
select_preferred_tool [] = none
select_preferred_tool (t ∷ ts) = some (preferred_from t ts)

pub data ActionKind : Type 0 where
  read_only preview_deploy production_deploy destructive_resource : ActionKind
  destructive_migration secret_replacement domain_change billing_change : ActionKind
  external_write : ActionKind

unfoldable pub requires_approval : ActionKind → Bool
requires_approval read_only = false
requires_approval preview_deploy = false
requires_approval _ = true

unfoldable pub action_label : ActionKind → Text
action_label read_only = text "read-only inspection"
action_label preview_deploy = text "preview deployment"
action_label production_deploy = text "production deployment"
action_label destructive_resource = text "destructive resource action"
action_label destructive_migration = text "destructive migration"
action_label secret_replacement = text "secret replacement"
action_label domain_change = text "domain change"
action_label billing_change = text "billing change"
action_label external_write = text "external write"

pub record AgentContext : Type 0 where
  pub application_id : Text
  pub environment_name : Text
  pub production : Bool
  pub principal : Text

pub record AgentInput : Type 0 where
  pub prompt_text : Text  -- the field `text`
  pub secret_refs : List SecretReference
  pub requested_action : Option ActionKind
  pub tool : Option ToolTier

unfoldable pub new_input : Text → AgentInput
new_input prompt_text = record {
  prompt_text = prompt_text;
  secret_refs = [];
  requested_action = none;
  tool = none;
}

unfoldable pub with_action : AgentInput → ActionKind → AgentInput
with_action input action = record input { requested_action = some action }

unfoldable pub with_tool : AgentInput → ToolTier → AgentInput
with_tool input tool = record input { tool = some tool }

unfoldable pub with_secret_ref : AgentInput → SecretReference → AgentInput
with_secret_ref input ref = record input { secret_refs = push input.secret_refs ref }

pub record ApprovalRequest : Type 0 where
  pub id : Text
  pub session_id : Text
  pub action : ActionKind
  pub reason : Text
  pub requested_by : Text

abbrev pub is_raw_shell : Option ToolTier → Bool
is_raw_shell (some raw_shell) = true
is_raw_shell _ = false

-- `Policy::authorize`; the action has no part in it.
unfoldable pub authorize : Option ToolTier → Bool → Result (Unit {0})
authorize tool production = if production && is_raw_shell tool then err policy_denied else ok tt

unfoldable pub ensure_protocol_version : ℕ → Result (Unit {0})
ensure_protocol_version found =
    if found == agent_protocol_version then ok tt else err protocol_version

-- `AgentBackend`: what a backend answers, with the events that it drafts for a prompt.
pub record AgentBackend : Type 0 where
  pub identity : BackendIdentity
  pub version : ℕ  -- u32
  pub draft_events : AgentContext → AgentInput → ℕ → Result (List (AgentEventKind × Text))
