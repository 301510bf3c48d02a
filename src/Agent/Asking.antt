-- ===== src/Agent/Asking.antt =====
-- What a session does with a prompt that needs an approval.
use labrys.Base.{
  ◌+◌, ◌%◌, ◌^◌, ◌++◌, text, ◌≡◌, ◌≢◌, refl, ap, ◌∙◌, true, false, none, some, List, [], ◌∷◌, All,
  Text, push, not, if◌then◌else◌, require, approval_required, protocol_version, session_state,
  secret_leak, ok, err, Method, pure, lift, ◌>>=◌, ◌>>◌, arith,
}
use labrys.Base.Clock.{Instant}
use labrys.Runtime.{ExplicitApproval}
use labrys.Agent.Protocol.{
  AgentEventKind, approval_requested, AgentBackend, AgentInput, SecretReference, ActionKind,
  raw_shell, requires_approval, with_action, authorize, ensure_protocol_version,
}
use labrys.Agent.Sessions.{
  AgentSession, active, status_eq, leaks, scan_text, require_status, check_timeout, request_of,
  is_past, ask_approval, scan_refs, check_policy, record_denial, asks, gate, answer, prompt,
  append_system_event, append_normalized, resolve_approval,
}
use labrys.Agent.Gate.{IsAllowed}

bind_step :
    {S A B : Type 0} (m : Method S A) (f : A → Method S B) (s : S) {a : A} {s' : S}
    → m s ≡ (ok a, s')
    → (m >>= f) s ≡ f a s'
bind_step m f s e = ap (λ p. (lift p.0 >>= f) p.1) e

scan_text_free :
    (t : Text) (s : AgentSession) → leaks s.protected_secrets t ≡ false → scan_text t s ≡ (ok tt, s)
unfolding scan_text
scan_text_free t s h = ap (λ b. require (not b) secret_leak s) h

scan_refs_free :
    (rs : List SecretReference) (s : AgentSession)
    → All (λ (r : SecretReference). leaks s.protected_secrets r.ref_id ≡ false) rs
    → scan_refs rs s ≡ (ok tt, s)
unfolding scan_refs
scan_refs_free [] s h = refl
scan_refs_free (r ∷ rs) s h =
    bind_step (scan_text r.ref_id) (λ _. scan_refs rs) s (scan_text_free r.ref_id s h.0)
    ∙ scan_refs_free rs s h.1

check_policy_free :
    (input : AgentInput) (s : AgentSession)
    → (s.context.production ≡ true → input.tool ≢ some raw_shell)
    → check_policy input s ≡ (ok tt, s)
unfolding check_policy record_denial authorize
check_policy_free input s h = ground arith

check_timeout_free :
    (now : Instant) (s : AgentSession)
    → is_past s.deadline now ≡ false
    → check_timeout now s ≡ (ok tt, s)
unfolding check_timeout
check_timeout_free now s h = ground arith

-- A prompt without an action passes the gate when it is allowed; with one, what is left is the
-- question whether the action needs an approval.
gate-asks :
    (backend : AgentBackend) (input : AgentInput) (action : ActionKind) (now : Instant)
    (s : AgentSession)
    → IsAllowed backend (record input { requested_action = none }) now s
    → gate backend (with_action input action) now s ≡ asks (some action) s
unfolding gate with_action ensure_protocol_version require_status
gate-asks backend input action now s h =
    let asked = with_action input action in
    let policed = check_policy asked >> asks (some action) in
    let scanned = scan_refs input.secret_refs >> policed in
    let screened = scan_text input.prompt_text >> scanned in
    bind_step (lift (ensure_protocol_version backend.version))
      (λ _. require_status active >> (check_timeout now >> screened)) s
      (ap (λ b. (if b then ok tt else err protocol_version, s)) {y = true}
        (ground (arith, h.spoken)))
    ∙ bind_step (require_status active) (λ _. check_timeout now >> screened) s
        (ap (λ st. require (status_eq st active) session_state s) h.standing)
    ∙ bind_step (check_timeout now) (λ _. screened) s (check_timeout_free now s h.timely)
    ∙ bind_step (scan_text input.prompt_text) (λ _. scanned) s
        (scan_text_free input.prompt_text s h.text_free)
    ∙ bind_step (scan_refs input.secret_refs) (λ _. policed) s
        (scan_refs_free input.secret_refs s h.refs_free)
    ∙ bind_step (check_policy asked) (λ _. asks (some action)) s
        (check_policy_free asked s h.policed)

-- The session in which a request is counted.
abbrev pub counted : AgentSession → AgentSession
counted s = record s { approval_counter = (s.approval_counter + 1) % 2 ^ 64 }

-- What decides on a prompt is the same in both sessions.
abbrev Stays : AgentSession → AgentSession → Type 0
Stays s s' =
    (s'.status ≡ s.status)
    × (s'.deadline ≡ s.deadline)
    × (s'.protected_secrets ≡ s.protected_secrets)
    × (s'.context ≡ s.context)

append_system_event-Stays :
    (kind : AgentEventKind) (detail : Text) (s : AgentSession)
    → Stays s (append_system_event kind detail s).1
      × ((append_system_event kind detail s).1.pending_approvals ≡ s.pending_approvals)
unfolding append_system_event append_normalized scan_text
append_system_event-Stays kind detail s = ground arith

resolve_approval-Stays :
    (id : Text) (approval : ExplicitApproval) (s : AgentSession)
    → Stays s (resolve_approval id approval s).1
unfolding resolve_approval append_system_event append_normalized scan_text
resolve_approval-Stays id approval s = ground arith

IsAllowed-Stays :
    (backend : AgentBackend) (input : AgentInput) (now : Instant) (s s' : AgentSession)
    → Stays s s'
    → IsAllowed backend input now s
    → IsAllowed backend input now s'
IsAllowed-Stays backend input now s s' k h = record {
  spoken = h.spoken;
  standing = k.0 ∙ h.standing;
  timely = rw (k.1) (h.timely);
  text_free = rw (k.2) (h.text_free);
  refs_free = rw (k.2) (h.refs_free);
  policed = rw (k.3) (h.policed);
  approved = h.approved;
}

ask_approval-asks :
    (action : ActionKind) (s : AgentSession)
    → ((ask_approval action s).0 ≡ err approval_required)
      × Stays s (ask_approval action s).1
      × ((ask_approval action s).1.pending_approvals
          ≡ push s.pending_approvals (request_of (counted s) action))
unfolding ask_approval
ask_approval-asks action s =
    let request = request_of (counted s) action in
    let kept =
      append_system_event-Stays approval_requested
        (text "approval " ++ (request.id ++ (text " requested: " ++ request.reason)))
        (record (counted s) { pending_approvals = push s.pending_approvals request }) in
    (refl, kept.0, kept.1)

-- What asking for an approval does to the session, whatever the backend.
prompt-asked :
    (backend : AgentBackend) (input : AgentInput) (action : ActionKind) (now : Instant)
    (s : AgentSession)
    → IsAllowed backend (record input { requested_action = none }) now s
    → requires_approval action ≡ true
    → prompt backend (with_action input action) now s
      ≡ (err approval_required, (ask_approval action s).1)
unfolding prompt
prompt-asked backend input action now s h needs =
    ap (λ p. (lift p.0 >>= λ _. answer backend (with_action input action)) p.1)
      (gate-asks backend input action now s h
        ∙ ap (λ b. (if b then ask_approval action else pure tt) s) needs
        ∙ ap (λ r. (r, (ask_approval action s).1)) (ask_approval-asks action s).0)

-- A prompt that would be allowed without an action, and requests an action that needs an approval,
-- is refused for want of an approval, leaves exactly one more pending request, for that action, and
-- changes neither status nor deadline; after any decision on any request, a granted one among
-- them, the same prompt is refused for want of an approval again.
pub prompt-again :
    (backend : AgentBackend) (input : AgentInput) (action : ActionKind) (now : Instant)
    (s : AgentSession)
    → IsAllowed backend (record input { requested_action = none }) now s
    → requires_approval action ≡ true
    → let first = prompt backend (with_action input action) now s in
      (first.0 ≡ err approval_required)
      × (first.1.pending_approvals ≡ push s.pending_approvals (request_of (counted s) action))
      × (first.1.status ≡ s.status)
      × (first.1.deadline ≡ s.deadline)
      × ((id : Text) (approval : ExplicitApproval)
          → (prompt backend
              (with_action input action)
              now
              (resolve_approval id approval first.1).1).0
            ≡ err approval_required)
prompt-again backend input action now s h needs =
    let free : AgentInput = record input { requested_action = none } in
    let s1 = (ask_approval action s).1 in
    let first = prompt-asked backend input action now s h needs in
    let (_, kept, pending) = ask_approval-asks action s in
    rw first (
      refl,
      pending,
      kept.0,
      kept.1,
      λ id approval.
          let s2 = (resolve_approval id approval s1).1 in
          let still =
            IsAllowed-Stays backend free now s1 s2 (resolve_approval-Stays id approval s1)
              (IsAllowed-Stays backend free now s s1 kept h) in
          ap (λ p. p.0) (prompt-asked backend input action now s2 still needs),
    )
