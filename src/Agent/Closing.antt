-- ===== src/Agent/Closing.antt =====
-- The end of a session.
use labrys.Base.{
  ◌≡◌, ◌≢◌, session_state, refl, sym, ◌∙◌, ap, List, [], ◌∷◌, Text, text, Result, ok, err, panic,
  Method, require, lift, ◌>>=◌, ◌>>◌, arith,
}
use mathlib.Core.Path.{subst}
use labrys.Base.Clock.{Instant}
use labrys.Agent.Protocol.{
  AgentEvent, AgentBackend, AgentInput, ensure_protocol_version, AgentEventKind, interrupted,
  completed,
}
use labrys.Runtime.{ExplicitApproval}
use labrys.Agent.Sessions.{
  AgentSession, SessionStatus, active, paused, finished, expired, require_status, status_eq,
  check_timeout, screen, gate, answer, enter, reenter, prompt, interrupt, resume_session,
  complete_session, replay_event, resolve_approval, set_deadline, scan_text, append_normalized,
  append_system_event,
}
use labrys.Agent.Calls.{
  Call, prompted, interruption, resumption, completion, replayed, answered, limited, called, calls,
}

abbrev pub IsClosed : SessionStatus → Type 0
IsClosed active = ⊥
IsClosed paused = ⊥
IsClosed finished = Unit
IsClosed expired = Unit

-- A closed session refuses the call and is left as it is.
abbrev pub Refuses : {A : Type 0} → Method AgentSession A → AgentSession → Type 0
Refuses {A = A} m s = ((m s).1 ≡ s) × ((a : A) → (m s).0 ≢ ok a)

Refuses-bind :
    {A B : Type 0} (m : Method AgentSession A) (f : A → Method AgentSession B) (s : AgentSession)
    → Refuses m s
    → Refuses (m >>= f) s
Refuses-bind {A = A} {B = B} m f s h = after (m s) h
  where
    after :
        (p : Result A × AgentSession)
        → (p.1 ≡ s) × ((a : A) → p.0 ≢ ok a)
        → (((lift p.0 >>= f) p.1).1 ≡ s) × ((b : B) → ((lift p.0 >>= f) p.1).0 ≢ ok b)
    after (ok a, s') h = absurd (h.1 a refl)
    after (err e, s') h = (h.0, λ b k. cc)
    after (panic, s') h = (h.0, λ b k. cc)

-- A value that does not come from the session, then a refusal.
Refuses-lift :
    {A B : Type 0} (r : Result A) (k : Method AgentSession B) (s : AgentSession)
    → Refuses k s
    → Refuses (lift r >> k) s
Refuses-lift (ok a) k s h = h
Refuses-lift (err e) k s h = (refl, λ b k. cc)
Refuses-lift panic k s h = (refl, λ b k. cc)

require_status-closed :
    (s : AgentSession) (expected : SessionStatus)
    → IsClosed s.status
    → ¬ IsClosed expected
    → Refuses (require_status expected) s
unfolding require_status
require_status-closed s expected h living = (refl, λ a k. differ s.status expected h living k)
  where
    differ :
        (a b : SessionStatus)
        → IsClosed a
        → ¬ IsClosed b
        → (require (status_eq a b) session_state s).0 ≢ ok tt
    differ finished active h n k = cc
    differ finished paused h n k = cc
    differ expired active h n k = cc
    differ expired paused h n k = cc
    differ finished finished h n k = n tt
    differ finished expired h n k = n tt
    differ expired finished h n k = n tt
    differ expired expired h n k = n tt
    differ active _ h n k = absurd h
    differ paused _ h n k = absurd h

module _ (s : AgentSession) (h : IsClosed s.status) where
  refusal : (expected : SessionStatus) → ¬ IsClosed expected → Refuses (require_status expected) s
  refusal expected living = require_status-closed s expected h living

  prompt-closed :
      (backend : AgentBackend) (input : AgentInput) (now : Instant)
      → Refuses (prompt backend input now) s
  unfolding prompt gate
  prompt-closed backend input now =
      Refuses-bind (gate backend input now) (λ _. answer backend input) s
        (Refuses-lift (ensure_protocol_version backend.version) standing s (
          Refuses-bind (require_status active) (λ _. check_timeout now >> screen input) s
            (refusal active (λ k. k))))
    where
      standing : Method AgentSession (Unit {0})
      standing = require_status active >> (check_timeout now >> screen input)

  interrupt-closed : Refuses interrupt s
  unfolding interrupt
  interrupt-closed =
      Refuses-bind (require_status active)
        (λ _. enter paused interrupted (text "session interrupted")) s (refusal active (λ k. k))

  resume_session-closed : Refuses resume_session s
  unfolding resume_session
  resume_session-closed =
      Refuses-bind (require_status paused) (λ _. reenter) s (refusal paused (λ k. k))

  complete_session-closed : Refuses complete_session s
  unfolding complete_session
  complete_session-closed =
      Refuses-bind (require_status active)
        (λ _. enter finished completed (text "session completed")) s (refusal active (λ k. k))

append_system_event-status :
    (kind : AgentEventKind) (detail : Text) (s : AgentSession)
    → (append_system_event kind detail s).1.status ≡ s.status
unfolding append_system_event append_normalized scan_text
append_system_event-status kind detail s = ground arith

replay_event-status : (e : AgentEvent) (s : AgentSession) → (replay_event e s).1.status ≡ s.status
unfolding replay_event scan_text
replay_event-status e s = ground arith

resolve_approval-status :
    (id : Text) (approval : ExplicitApproval) (s : AgentSession)
    → (resolve_approval id approval s).1.status ≡ s.status
unfolding resolve_approval append_system_event append_normalized scan_text
resolve_approval-status id approval s = ground arith

called-closed : (c : Call) (s : AgentSession) → IsClosed s.status → (called c s).status ≡ s.status
unfolding called set_deadline
called-closed (prompted backend input now) s h =
    ap (λ x. x.status) (prompt-closed s h backend input now).0
called-closed interruption s h = ap (λ x. x.status) (interrupt-closed s h).0
called-closed resumption s h = ap (λ x. x.status) (resume_session-closed s h).0
called-closed completion s h = ap (λ x. x.status) (complete_session-closed s h).0
called-closed (replayed e) s h = replay_event-status e s
called-closed (answered id approval) s h = resolve_approval-status id approval s
called-closed (limited deadline) s h = refl

calls-closed :
    (cs : List Call) (s : AgentSession) → IsClosed s.status → (calls cs s).status ≡ s.status
calls-closed [] s h = refl
calls-closed (c ∷ cs) s h =
    let one = called-closed c s h in calls-closed cs (called c s) (subst IsClosed (sym one) h) ∙ one

-- A session that completed or ran out of time keeps that status over any calls, and after them it
-- refuses prompts, interruptions, resumptions and completions and is left as it is by each.
pub calls-closed_refuse :
    (cs : List Call) (s : AgentSession) (backend : AgentBackend) (input : AgentInput)
    (now : Instant)
    → IsClosed s.status
    → ((calls cs s).status ≡ s.status)
      × Refuses (prompt backend input now) (calls cs s)
      × Refuses interrupt (calls cs s)
      × Refuses resume_session (calls cs s)
      × Refuses complete_session (calls cs s)
calls-closed_refuse cs s backend input now h =
    let same = calls-closed cs s h in
    let still = subst IsClosed (sym same) h in
    (
      same,
      prompt-closed (calls cs s) still backend input now,
      interrupt-closed (calls cs s) still,
      resume_session-closed (calls cs s) still,
      complete_session-closed (calls cs s) still,
    )
