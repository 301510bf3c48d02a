-- ===== src/Agent/Sessions.antt =====
-- `AgentSession` and its methods (crates/labrys-core/src/agent.rs).
use labrys.Base.{
  ℕ, ◌+◌, ◌%◌, ◌^◌, ◌==◌, Bool, true, false, not, ◌&&◌, Option, none, some, List, [], ◌∷◌, ◌++◌,
  Text, text, text_eq, ltb, any, push, contains, is_empty, is_blank, Result, ok, err, panic,
  CoreError, session_state, approval_required, secret_leak, Method, pure, throw, require, gets,
  modify, lift, ◌>>=◌, ◌>>◌, if◌then◌else◌,
}
use labrys.Base.Clock.{Instant}
use labrys.Queue.{decimal}
use labrys.Runtime.{ExplicitApproval}
use labrys.Agent.Protocol.{
  BackendIdentity, identity_eq, AgentEventKind, verification, approval_requested, denied,
  interrupted, resumed, timed_out, completed, AgentEvent, SecretReference, ActionKind,
  requires_approval, action_label, AgentContext, AgentInput, ApprovalRequest, authorize,
  ensure_protocol_version, AgentBackend,
}

-- The source's `Active`, `Interrupted`, `Completed` and `TimedOut`.
pub data SessionStatus : Type 0 where
  active paused finished expired : SessionStatus

abbrev pub status_eq : SessionStatus → SessionStatus → Bool
status_eq active active = true
status_eq paused paused = true
status_eq finished finished = true
status_eq expired expired = true
status_eq _ _ = false

pub record AgentSession : Type 0 where
  pub id : Text
  pub context : AgentContext
  pub backend : BackendIdentity
  pub status : SessionStatus
  pub events : List AgentEvent
  pub next_sequence : ℕ  -- u64
  pub deadline : Option Instant
  pub pending_approvals : List ApprovalRequest
  pub approval_counter : ℕ  -- u64
  pub protected_secrets : List Text

-- A session as `open` makes it; the fresh identifier is an argument.
abbrev pub opened : Text → BackendIdentity → AgentContext → List Text → AgentSession
opened fresh backend context protected_secrets = record {
  id = fresh;
  context = context;
  backend = backend;
  status = active;
  events = [];
  next_sequence = 0;
  deadline = none;
  pending_approvals = [];
  approval_counter = 0;
  protected_secrets = protected_secrets;
}

unfoldable pub open_session : Text → AgentBackend → AgentContext → List Text → Result AgentSession
open_session fresh backend context protected_secrets =
    elim (ensure_protocol_version backend.version) [
      | ok _ ↦ ok (opened fresh backend.identity context protected_secrets)
      | err e ↦ err e
      | panic ↦ panic
    ]

unfoldable pub set_deadline : Instant → AgentSession → AgentSession
set_deadline deadline s = record s { deadline = some deadline }

-- The test of `scan_text`: the text contains a protected value.
unfoldable pub leaks : List Text → Text → Bool
unfolding contains
leaks protected_secrets t = any (λ p. not (is_empty p) && contains p t) protected_secrets

unfoldable pub scan_text : Text → Method AgentSession (Unit {0})
scan_text t = do found ← gets (λ s. leaks s.protected_secrets t); require (not found) secret_leak

-- The event that is appended; `next_sequence` counts the pushes to a `Vec` and does not wrap.
abbrev pub next_event : AgentSession → AgentEventKind → Text → BackendIdentity → AgentEvent
next_event s kind detail backend = record {
  sequence = s.next_sequence;
  session_id = s.id;
  backend = backend;
  kind = kind;
  detail = detail;
}

-- `self.next_sequence += 1; self.events.push(event)`.
abbrev pub push_event : AgentEvent → AgentSession → AgentSession
push_event e s = record s { next_sequence = s.next_sequence + 1; events = push s.events e }

unfoldable pub append_normalized :
    AgentEventKind → Text → BackendIdentity → Method AgentSession AgentEvent
unfolding scan_text
append_normalized kind detail backend = do
  scan_text detail
  e ← gets (λ s. next_event s kind detail backend)
  modify (push_event e)
  pure e

unfoldable pub append_system_event : AgentEventKind → Text → Method AgentSession AgentEvent
unfolding append_normalized
append_system_event kind detail = do
  backend ← gets (λ s. s.backend)
  append_normalized kind detail backend

-- `let _ = ...`: the outcome is dropped, what was written stays.
abbrev pub ignoring : {A : Type 0} → Method AgentSession A → Method AgentSession (Unit {0})
ignoring m s = (ok tt, (m s).1)

unfoldable pub require_status : SessionStatus → Method AgentSession (Unit {0})
require_status expected = do
  status ← gets (λ s. s.status)
  require (status_eq status expected) session_state

abbrev pub is_past : Option Instant → Instant → Bool
is_past none now = false
is_past (some deadline) now = ltb deadline now

unfoldable pub check_timeout : Instant → Method AgentSession (Unit {0})
unfolding append_system_event
check_timeout now s =
    if is_past s.deadline now
    then (ignoring (append_system_event timed_out (text "agent prompt timed out"))
          >> throw CoreError.timed_out)
        (record s { status = expired })
    else (ok tt, s)

unfoldable pub request_of : AgentSession → ActionKind → ApprovalRequest
request_of s action = record {
  id = text "apr_agt_" ++ (s.id ++ (text "_" ++ decimal s.approval_counter));
  session_id = s.id;
  action = action;
  reason = action_label action ++ text " requires human approval before execution";
  requested_by = s.backend.name;
}

-- `require_approval`, whose error the prompt returns.
unfoldable pub ask_approval : ActionKind → Method AgentSession (Unit {0})
unfolding request_of append_system_event
ask_approval action = do
  modify (λ s. record s { approval_counter = (s.approval_counter + 1) % 2 ^ 64 })
  request ← gets (λ s. request_of s action)
  modify (λ s. record s { pending_approvals = push s.pending_approvals request })
  let detail = text "approval " ++ (request.id ++ (text " requested: " ++ request.reason))
  ignoring (append_system_event approval_requested detail)
  throw approval_required

unfoldable pub scan_refs : List SecretReference → Method AgentSession (Unit {0})
unfolding scan_text
scan_refs [] = pure tt
scan_refs (r ∷ rs) = do scan_text r.ref_id; scan_refs rs

-- The policy's refusal is recorded and returned; the detail has the printed form of the error, whose
-- message is the policy's.
unfoldable pub record_denial : Result (Unit {0}) → Method AgentSession (Unit {0})
unfolding append_system_event
record_denial (ok _) s = (ok tt, s)
record_denial (err e) s =
    (ignoring (
          append_system_event denied (
            text
              "prompt denied: policy denied action: raw shell is denied in production; use a platform, framework, or generic tool"))
        >> throw e)
      s
record_denial panic s = (panic, s)

unfoldable pub check_policy : AgentInput → Method AgentSession (Unit {0})
unfolding authorize record_denial
check_policy input s = record_denial (authorize input.tool s.context.production) s

abbrev pub asks : Option ActionKind → Method AgentSession (Unit {0})
asks none = pure tt
asks (some action) = if requires_approval action then ask_approval action else pure tt

unfoldable pub append_all :
    List (AgentEventKind × Text) → BackendIdentity → Method AgentSession (List AgentEvent)
unfolding append_normalized
append_all [] backend = pure []
append_all ((kind, detail) ∷ ds) backend = do
  e ← append_normalized kind detail backend
  es ← append_all ds backend
  pure (e ∷ es)

-- The tests of a prompt after its deadline's.
abbrev pub screen : AgentInput → Method AgentSession (Unit {0})
screen input = do
  scan_text input.prompt_text
  scan_refs input.secret_refs
  check_policy input
  asks input.requested_action

-- What a prompt passes before the backend is asked.
unfoldable pub gate : AgentBackend → AgentInput → Instant → Method AgentSession (Unit {0})
unfolding ensure_protocol_version require_status check_timeout
gate backend input now = do
  lift (ensure_protocol_version backend.version)
  require_status active
  check_timeout now
  screen input

-- What follows the gate: the backend's drafts are appended under the identity it has.
unfoldable pub answer : AgentBackend → AgentInput → Method AgentSession (List AgentEvent)
unfolding append_all
answer backend input = do
  drafted ← gets (λ s. backend.draft_events s.context input s.next_sequence)
  ds ← lift drafted
  append_all ds backend.identity

unfoldable pub prompt : AgentBackend → AgentInput → Instant → Method AgentSession (List AgentEvent)
unfolding gate answer
prompt backend input now = do gate backend input now; answer backend input

-- The status is set first; the event that records it may fail.
unfoldable pub enter : SessionStatus → AgentEventKind → Text → Method AgentSession AgentEvent
unfolding append_system_event
enter status kind detail = do
  modify (λ s. record s { status = status })
  append_system_event kind detail

unfoldable pub interrupt : Method AgentSession AgentEvent
unfolding require_status enter
interrupt = do require_status active; enter paused interrupted (text "session interrupted")

-- `resume`, after the test of the status.
unfoldable pub reenter : Method AgentSession (List AgentEvent)
unfolding enter
reenter = do enter active resumed (text "session resumed"); gets (λ s. s.events)

unfoldable pub resume_session : Method AgentSession (List AgentEvent)
unfolding require_status reenter
resume_session = do require_status paused; reenter

unfoldable pub complete_session : Method AgentSession AgentEvent
unfolding require_status enter
complete_session = do require_status active; enter finished completed (text "session completed")

unfoldable pub replay_event : AgentEvent → Method AgentSession (Unit {0})
unfolding scan_text
replay_event e = do
  own ← gets (λ s. text_eq e.session_id s.id)
  require own session_state
  same ← gets (λ s. identity_eq e.backend s.backend)
  require same session_state
  next ← gets (λ s. e.sequence == s.next_sequence)
  require next session_state
  scan_text e.detail
  modify (push_event e)

abbrev pub has_request : Text → List ApprovalRequest → Bool
has_request id rs = any (λ r. text_eq r.id id) rs

-- `pending_approvals.remove(position)` of the first request with the identifier.
abbrev pub remove_request : Text → List ApprovalRequest → List ApprovalRequest
remove_request id [] = []
remove_request id (r ∷ rs) =
    let rest = remove_request id rs in if text_eq r.id id then rs else r ∷ rest

abbrev pub forget_request : Text → AgentSession → AgentSession
forget_request id s = record s { pending_approvals = remove_request id s.pending_approvals }

unfoldable pub resolve_approval : Text → ExplicitApproval → Method AgentSession AgentEvent
unfolding append_system_event
resolve_approval id approval = do
  known ← gets (λ s. has_request id s.pending_approvals)
  require known approval_required
  require (not (approval.approved && is_blank approval.approver)) approval_required
  let how = if approval.approved then text " granted by " else text " denied by "
  let detail = text "approval " ++ (id ++ (how ++ approval.approver))
  e ← append_system_event (if approval.approved then verification else denied) detail
  modify (forget_request id)
  pure e
