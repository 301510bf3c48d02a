-- ===== src/Observability/Events.antt =====
-- `Correlation`, `EventActor`, `EventAction`, `EventResource`, `EventResult`, `PlatformEvent`,
-- `EventLog` and `LogStore` (crates/labrys-core/src/observability.rs).
use labrys.Base.{
  ℕ, ◌+◌, Bool, true, false, Option, none, some, List, [], Text, text, text_eq, length, push,
  retain,
}
use labrys.Base.Clock.{Instant}
use labrys.Resource.{redact_reason}
use labrys.Deployment.{LogLevel, error}

pub record Correlation : Type 0 where
  pub trace_id : Text
  pub session_id : Option Text
  pub application_id : Option Text
  pub environment_id : Option Text

unfoldable pub new_correlation : Text → Correlation
new_correlation trace_id = record {
  trace_id = trace_id;
  session_id = none;
  application_id = none;
  environment_id = none;
}

unfoldable pub with_session : Correlation → Text → Correlation
with_session c session_id = record c { session_id = some session_id }

unfoldable pub with_application : Correlation → Text → Correlation
with_application c application_id = record c { application_id = some application_id }

unfoldable pub with_environment : Correlation → Text → Correlation
with_environment c environment_id = record c { environment_id = some environment_id }

pub data EventActor : Type 0 where
  agent_actor : Text → Text → EventActor
  platform human provider : Text → EventActor

unfoldable pub kind_label : EventActor → Text
kind_label (agent_actor session_id name) = text "agent"
kind_label (platform name) = text "platform"
kind_label (human name) = text "human"
kind_label (provider name) = text "provider"

pub data EventAction : Type 0 where
  capability_requested capability_decision resource_provisioned secret_rotated : EventAction
  secret_replaced build_started build_finished deployment_rolled_out : EventAction
  deployment_rolled_back domain_changed health_probed reconciled : EventAction
  verification_finished approval_requested approval_decided : EventAction

unfoldable pub action_name : EventAction → Text
action_name capability_requested = text "capability_requested"
action_name capability_decision = text "capability_decision"
action_name resource_provisioned = text "resource_provisioned"
action_name secret_rotated = text "secret_rotated"
action_name secret_replaced = text "secret_replaced"
action_name build_started = text "build_started"
action_name build_finished = text "build_finished"
action_name deployment_rolled_out = text "deployment_rolled_out"
action_name deployment_rolled_back = text "deployment_rolled_back"
action_name domain_changed = text "domain_changed"
action_name health_probed = text "health_probed"
action_name reconciled = text "reconciled"
action_name verification_finished = text "verification_finished"
action_name approval_requested = text "approval_requested"
action_name approval_decided = text "approval_decided"

pub record EventResource : Type 0 where
  pub kind : Text
  pub id : Text

pub data EventResult : Type 0 where
  accepted denied succeeded waiting : EventResult
  failed : Text → EventResult

unfoldable pub is_failure : EventResult → Bool
is_failure (failed reason) = true
is_failure _ = false

pub record PlatformEvent : Type 0 where
  pub sequence : ℕ  -- u64
  pub at : Instant
  pub actor : EventActor
  pub correlation : Correlation
  pub action : EventAction
  pub resource : Option EventResource
  pub before : Option Text
  pub after : Option Text
  pub result : EventResult

pub record EventDraft : Type 0 where
  pub at : Instant
  pub actor : EventActor
  pub correlation : Correlation
  pub action : EventAction
  pub resource : Option EventResource
  pub before : Option Text
  pub after : Option Text
  pub result : EventResult

unfoldable pub new_draft :
    Instant → EventActor → Correlation → EventAction → EventResult → EventDraft
new_draft at actor correlation action result = record {
  at = at;
  actor = actor;
  correlation = correlation;
  action = action;
  resource = none;
  before = none;
  after = none;
  result = result;
}

unfoldable pub on_resource : EventDraft → EventResource → EventDraft
on_resource draft resource = record draft { resource = some resource }

unfoldable pub between : EventDraft → Text → Text → EventDraft
between draft before after = record draft { before = some before; after = some after }

abbrev pub redact_option : Option Text → List Text → Option Text
redact_option none secrets = none
redact_option (some t) secrets = some (redact_reason t secrets)

abbrev pub redact_result : EventResult → List Text → EventResult
redact_result (failed reason) secrets = failed (redact_reason reason secrets)
redact_result accepted secrets = accepted
redact_result denied secrets = denied
redact_result succeeded secrets = succeeded
redact_result waiting secrets = waiting

pub record EventLog : Type 0 where
  pub events : List PlatformEvent

unfoldable pub new_log : EventLog
new_log = record { events = [] }

-- A `Vec` has fewer than 2 ^ 63 elements, so the sequence number does not wrap.
unfoldable pub event_of : EventLog → EventDraft → List Text → PlatformEvent
event_of log draft secrets = record {
  sequence = length log.events + 1;
  at = draft.at;
  actor = draft.actor;
  correlation = draft.correlation;
  action = draft.action;
  resource = draft.resource;
  before = redact_option draft.before secrets;
  after = redact_option draft.after secrets;
  result = redact_result draft.result secrets;
}

unfoldable pub append_event : EventDraft → List Text → EventLog → PlatformEvent × EventLog
unfolding event_of
append_event draft secrets log =
    (event_of log draft secrets, record { events = push log.events (event_of log draft secrets) })

-- `field == Some(id)`.
abbrev pub is_for : Option Text → Text → Bool
is_for none id = false
is_for (some x) id = text_eq x id

unfoldable pub for_application : EventLog → Text → List PlatformEvent
for_application log id = retain (λ e. is_for e.correlation.application_id id) log.events

unfoldable pub for_environment : EventLog → Text → List PlatformEvent
for_environment log id = retain (λ e. is_for e.correlation.environment_id id) log.events

unfoldable pub for_session : EventLog → Text → List PlatformEvent
for_session log id = retain (λ e. is_for e.correlation.session_id id) log.events

unfoldable pub for_trace : EventLog → Text → List PlatformEvent
for_trace log id = retain (λ e. text_eq e.correlation.trace_id id) log.events

pub data LogSource : Type 0 where
  agent build runtime deployment capability resource : LogSource

abbrev pub source_eq : LogSource → LogSource → Bool
source_eq agent agent = true
source_eq build build = true
source_eq runtime runtime = true
source_eq deployment deployment = true
source_eq capability capability = true
source_eq resource resource = true
source_eq _ _ = false

pub record LogEntry : Type 0 where
  pub sequence : ℕ  -- u64
  pub at : Instant
  pub source : LogSource
  pub level : LogLevel
  pub correlation : Correlation
  pub message : Text

pub record LogStore : Type 0 where
  pub entries : List LogEntry

unfoldable pub append_line :
    LogSource → LogLevel → Correlation → Text → List Text → Instant → LogStore → LogStore
append_line source level correlation message secrets at store = record {
  entries = push store.entries (record {
    sequence = length store.entries + 1;
    at = at;
    source = source;
    level = level;
    correlation = correlation;
    message = redact_reason message secrets;
  });
}

unfoldable pub for_source : LogStore → LogSource → List LogEntry
for_source store source = retain (λ e. source_eq e.source source) store.entries

abbrev pub is_error : LogLevel → Bool
is_error error = true
is_error _ = false

unfoldable pub errors : LogStore → List LogEntry
errors store = retain (λ e. is_error e.level) store.entries
