-- ===== src/Agent/Sequence.antt =====
-- The log of a session over all its calls.
use labrys.Base.{
  ◌+◌, ◌%◌, ◌^◌, ◌==◌, ==_iff, text_eq, text_eq_iff, ◌≡◌, refl, Bool, true, false, not, ◌&&◌,
  Option, none, some, List, [], ◌∷◌, ◌++◌, Text, text, CoreError, push, secret_leak, session_state,
  approval_required, if◌then◌else◌, Result, ok, err, panic, Method, pure, throw, require, gets,
  modify, lift, ◌>>=◌, ◌>>◌, arith, Bool-cases, inl, inr, is_blank,
}
use labrys.Base.Clock.{Instant}
use labrys.Runtime.{ExplicitApproval}
use labrys.Agent.Protocol.{
  BackendIdentity, identity_eq, AgentEventKind, approval_requested, verification, denied,
  interrupted, resumed, completed, timed_out, AgentEvent, AgentBackend, AgentContext, AgentInput,
  SecretReference, ActionKind, requires_approval, authorize, ensure_protocol_version,
}
use labrys.Agent.Sessions.{
  AgentSession, SessionStatus, active, paused, finished, expired, request_of, opened, open_session,
  leaks, scan_text, append_normalized, append_system_event, ignoring, require_status, check_timeout,
  is_past, ask_approval, scan_refs, check_policy, record_denial, asks, screen, append_all, gate,
  answer, enter, reenter, prompt, interrupt, resume_session, complete_session, replay_event,
  resolve_approval, set_deadline, has_request, forget_request, push_event, next_event,
}
use labrys.Agent.Calls.{
  Call, prompted, interruption, resumption, completion, replayed, answered, limited, called, calls,
}
use labrys.Agent.Soundness.{
  IsSound, Keeps, Keeps-refl, Keeps-trans, KeepsAll, Keeps-lift, Keeps-gets, Keeps-bind, Keeps-then,
  Keeps-modify, Keeps-push, opened-IsSound,
}

scan_text-Keeps : (t : Text) → KeepsAll (scan_text t)
unfolding scan_text
scan_text-Keeps t s = Keeps-refl s

append_normalized-Keeps :
    (kind : AgentEventKind) (detail : Text) (backend : BackendIdentity)
    → KeepsAll (append_normalized kind detail backend)
unfolding append_normalized scan_text
append_normalized-Keeps kind detail backend s = after (leaks s.protected_secrets detail) refl
  where
    e : AgentEvent
    e = next_event s kind detail backend

    after :
        (found : Bool)
        → leaks s.protected_secrets detail ≡ found
        → Keeps s ((require (not found) secret_leak >> (modify (push_event e) >> pure e)) s).1
    after true h = Keeps-refl s
    after false h = Keeps-push s e refl refl h

append_system_event-Keeps :
    (kind : AgentEventKind) (detail : Text) → KeepsAll (append_system_event kind detail)
unfolding append_system_event
append_system_event-Keeps kind detail s = append_normalized-Keeps kind detail s.backend s

require_status-Keeps : (expected : _) → KeepsAll (require_status expected)
unfolding require_status
require_status-Keeps expected s = Keeps-refl s

-- Whatever the appended event was, the call goes on from the session it left.
ignoring-Keeps : {A : Type 0} (m : Method AgentSession A) → KeepsAll m → KeepsAll (ignoring m)
ignoring-Keeps m h s = h s

check_timeout-Keeps : (now : Instant) → KeepsAll (check_timeout now)
unfolding check_timeout
check_timeout-Keeps now s = after (is_past s.deadline now)
  where
    expire : KeepsAll (modify (λ s. record s { status = expired }))
    expire = Keeps-modify _ (λ s. refl) (λ s. refl) (λ s. refl) (λ s. refl)

    after :
        (past : Bool)
        → Keeps s
            (if past
              then (ignoring (append_system_event timed_out (text "agent prompt timed out"))
                    >> throw CoreError.timed_out)
                  (record s { status = expired })
              else (ok tt, s)).1
    after true = Keeps-trans s _ _ (expire s) (
        append_system_event-Keeps timed_out (text "agent prompt timed out")
          (record s { status = expired }))
    after false = Keeps-refl s

ask_approval-Keeps : (action : ActionKind) → KeepsAll (ask_approval action)
unfolding ask_approval
ask_approval-Keeps action s =
    Keeps-trans s _ _ (Keeps-modify asked (λ s. refl) (λ s. refl) (λ s. refl) (λ s. refl) s)
      (append_system_event-Keeps approval_requested _ (asked s))
  where
    counted : AgentSession → AgentSession
    counted s = record s { approval_counter = (s.approval_counter + 1) % 2 ^ 64 }

    asked : AgentSession → AgentSession
    asked s = record (counted s) {
      pending_approvals = push s.pending_approvals (request_of (counted s) action);
    }

scan_refs-Keeps : (rs : List SecretReference) → KeepsAll (scan_refs rs)
unfolding scan_refs
scan_refs-Keeps [] s = Keeps-refl s
scan_refs-Keeps (r ∷ rs) s =
    Keeps-bind (scan_text r.ref_id) (λ _. scan_refs rs) (scan_text-Keeps r.ref_id)
      (λ _. scan_refs-Keeps rs) s

record_denial-Keeps : (r : Result (Unit {0})) → KeepsAll (record_denial r)
unfolding record_denial
record_denial-Keeps (ok _) s = Keeps-refl s
record_denial-Keeps (err e) s = append_system_event-Keeps _ _ s
record_denial-Keeps panic s = Keeps-refl s

check_policy-Keeps : (input : AgentInput) → KeepsAll (check_policy input)
unfolding check_policy
check_policy-Keeps input s = record_denial-Keeps (authorize input.tool s.context.production) s

asks-Keeps : (action : Option ActionKind) → KeepsAll (asks action)
asks-Keeps none s = Keeps-refl s
asks-Keeps (some action) s = elim (Bool-cases (requires_approval action)) [
  | inl needed ↦ rw needed (ask_approval-Keeps action s)
  | inr free ↦ rw free (Keeps-refl s)
]

append_all-Keeps :
    (ds : List (AgentEventKind × Text)) (backend : BackendIdentity)
    → KeepsAll (append_all ds backend)
unfolding append_all
append_all-Keeps [] backend s = Keeps-refl s
append_all-Keeps ((kind, detail) ∷ ds) backend s =
    Keeps-bind (append_normalized kind detail backend)
      (λ e. append_all ds backend >>= λ es. pure (e ∷ es))
      (append_normalized-Keeps kind detail backend)
      (λ e.
        Keeps-bind (append_all ds backend) (λ es. pure (e ∷ es)) (append_all-Keeps ds backend)
          (λ es. Keeps-refl))
      s

screen-Keeps : (input : AgentInput) → KeepsAll (screen input)
screen-Keeps input =
    Keeps-then (scan_text input.prompt_text) scanned (scan_text-Keeps input.prompt_text) (
      Keeps-then (scan_refs input.secret_refs) policed (scan_refs-Keeps input.secret_refs) (
        Keeps-then (check_policy input) (asks input.requested_action) (check_policy-Keeps input)
          (asks-Keeps input.requested_action)))
  where
    policed : Method AgentSession (Unit {0})
    policed = check_policy input >> asks input.requested_action

    scanned : Method AgentSession (Unit {0})
    scanned = scan_refs input.secret_refs >> policed

gate-Keeps :
    (backend : AgentBackend) (input : AgentInput) (now : Instant)
    → KeepsAll (gate backend input now)
unfolding gate
gate-Keeps backend input now = Keeps-then (lift version) standing (Keeps-lift version) (
    Keeps-then (require_status active) timely (require_status-Keeps active) (
      Keeps-then (check_timeout now) (screen input) (check_timeout-Keeps now) (screen-Keeps input)))
  where
    version : Result (Unit {0})
    version = ensure_protocol_version backend.version

    timely : Method AgentSession (Unit {0})
    timely = check_timeout now >> screen input

    standing : Method AgentSession (Unit {0})
    standing = require_status active >> timely

answer-Keeps : (backend : AgentBackend) (input : AgentInput) → KeepsAll (answer backend input)
unfolding answer
answer-Keeps backend input s =
    Keeps-bind (lift drafts) (λ ds. append_all ds backend.identity) (Keeps-lift drafts)
      (λ ds. append_all-Keeps ds backend.identity) s
  where
    drafts : Result (List (AgentEventKind × Text))
    drafts = backend.draft_events s.context input s.next_sequence

prompt-Keeps :
    (backend : AgentBackend) (input : AgentInput) (now : Instant)
    → KeepsAll (prompt backend input now)
unfolding prompt
prompt-Keeps backend input now =
    Keeps-then (gate backend input now) (answer backend input) (gate-Keeps backend input now)
      (answer-Keeps backend input)

enter-Keeps :
    (status : SessionStatus) (kind : AgentEventKind) (detail : Text)
    → KeepsAll (enter status kind detail)
unfolding enter
enter-Keeps status kind detail =
    Keeps-then (modify (λ s. record s { status = status })) (append_system_event kind detail)
      (Keeps-modify (λ s. record s { status = status }) (λ s. refl) (λ s. refl) (λ s. refl)
        (λ s. refl))
      (append_system_event-Keeps kind detail)

interrupt-Keeps : KeepsAll interrupt
unfolding interrupt
interrupt-Keeps =
    Keeps-then (require_status active) (enter paused interrupted (text "session interrupted"))
      (require_status-Keeps active) (enter-Keeps paused interrupted (text "session interrupted"))

resume_session-Keeps : KeepsAll resume_session
unfolding resume_session reenter
resume_session-Keeps = Keeps-then (require_status paused) reenter (require_status-Keeps paused) (
    Keeps-then (enter active resumed (text "session resumed")) (gets (λ s. s.events))
      (enter-Keeps active resumed (text "session resumed")) (Keeps-gets (λ s. s.events)))

complete_session-Keeps : KeepsAll complete_session
unfolding complete_session
complete_session-Keeps =
    Keeps-then (require_status active) (enter finished completed (text "session completed"))
      (require_status-Keeps active) (enter-Keeps finished completed (text "session completed"))

replay_event-Keeps : (e : AgentEvent) → KeepsAll (replay_event e)
unfolding replay_event scan_text
replay_event-Keeps e s =
    after (text_eq e.session_id s.id) (identity_eq e.backend s.backend)
      (e.sequence == s.next_sequence) (leaks s.protected_secrets e.detail) refl refl refl
  where
    after :
        (own same next found : Bool)
        → text_eq e.session_id s.id ≡ own
        → (e.sequence == s.next_sequence) ≡ next
        → leaks s.protected_secrets e.detail ≡ found
        → Keeps s
            ((require own session_state
                >> (require same session_state
                    >> (require next session_state
                        >> (require (not found) secret_leak >> modify (push_event e)))))
              s).1
    after true true true false o n f =
        Keeps-push s e ((==_iff e.sequence s.next_sequence).0 n)
          ((text_eq_iff e.session_id s.id).0 o) f
    after true true true true o n f = Keeps-refl s
    after true true false found o n f = Keeps-refl s
    after true false next found o n f = Keeps-refl s
    after false same next found o n f = Keeps-refl s

resolve_approval-Keeps :
    (id : Text) (approval : ExplicitApproval) → KeepsAll (resolve_approval id approval)
unfolding resolve_approval
resolve_approval-Keeps id approval s =
    after (has_request id s.pending_approvals)
      (not (approval.approved && is_blank approval.approver))
  where
    kind : AgentEventKind
    kind = if approval.approved then verification else denied

    detail : Text
    detail =
        text "approval "
        ++ (id
            ++ ((if approval.approved then text " granted by " else text " denied by ")
                ++ approval.approver))

    recorded : Method AgentSession AgentEvent
    recorded = append_system_event kind detail >>= λ e. modify (forget_request id) >> pure e

    after :
        (known named : Bool)
        → Keeps s
            ((require known approval_required >> (require named approval_required >> recorded)) s).1
    after true true =
        Keeps-bind (append_system_event kind detail) (λ e. modify (forget_request id) >> pure e)
          (append_system_event-Keeps kind detail)
          (λ e. Keeps-modify (forget_request id) (λ s. refl) (λ s. refl) (λ s. refl) (λ s. refl)) s
    after true false = Keeps-refl s
    after false named = Keeps-refl s

called-Keeps : (c : Call) (s : AgentSession) → Keeps s (called c s)
unfolding called set_deadline
called-Keeps (prompted backend input now) s = prompt-Keeps backend input now s
called-Keeps interruption s = interrupt-Keeps s
called-Keeps resumption s = resume_session-Keeps s
called-Keeps completion s = complete_session-Keeps s
called-Keeps (replayed e) s = replay_event-Keeps e s
called-Keeps (answered id approval) s = resolve_approval-Keeps id approval s
called-Keeps (limited deadline) s =
    Keeps-modify (set_deadline deadline) (λ s. refl) (λ s. refl) (λ s. refl) (λ s. refl) s

calls-Keeps : (cs : List Call) (s : AgentSession) → Keeps s (calls cs s)
calls-Keeps [] s = Keeps-refl s
calls-Keeps (c ∷ cs) s =
    Keeps-trans s (called c s) (calls cs (called c s)) (called-Keeps c s)
      (calls-Keeps cs (called c s))

-- In a session that was opened, whatever calls it receives and whatever backends answer them, the
-- events are numbered from 0 without a gap, each is of the session that was opened, and the detail of
-- none contains one of the secrets that the session was opened with that are not empty.
pub open_session-calls-IsSound :
    (fresh : Text) (backend : AgentBackend) (context : AgentContext) (secrets : List Text)
    (cs : List Call) {s : AgentSession}
    → open_session fresh backend context secrets ≡ ok s
    → IsSound (calls cs s) × ((calls cs s).id ≡ fresh) × ((calls cs s).protected_secrets ≡ secrets)
unfolding open_session ensure_protocol_version
open_session-calls-IsSound fresh backend context secrets cs {s} h =
    elim (Bool-cases (backend.version == 1)) [
      | inl right ↦
          let same : opened fresh backend.identity context secrets ≡ s = grind arith in
          rw (← same) (
            (calls-Keeps cs (opened fresh backend.identity context secrets)).still_sound
                (opened-IsSound fresh backend.identity context secrets),
            (calls-Keeps cs (opened fresh backend.identity context secrets)).same_id,
            (calls-Keeps cs (opened fresh backend.identity context secrets)).same_secrets,
          )
      | inr wrong ↦ absurd (ground arith)
    ]
