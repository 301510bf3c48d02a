-- ===== src/Agent/Gate.antt =====
-- What a session lets through.
use labrys.Base.{
  ◌≡◌, ◌≢◌, refl, sym, ap, ◌∙◌, Bool, true, false, Option, none, some, List, [], ◌∷◌, All,
  CoreError, session_state, Result, is_ok, ok, err, panic, Method, require, lift, ◌>>=◌, ◌>>◌,
  arith,
}
use labrys.Base.Clock.{Instant}
use labrys.Agent.Protocol.{
  AgentBackend, AgentInput, SecretReference, ActionKind, raw_shell, requires_approval, authorize,
  ensure_protocol_version, agent_protocol_version,
}
use labrys.Agent.Sessions.{
  AgentSession, SessionStatus, active, paused, finished, expired, status_eq, leaks, scan_text,
  require_status, check_timeout, is_past, ask_approval, scan_refs, check_policy, record_denial,
  asks, screen, gate, answer, prompt,
}

-- Nothing a person has to approve first.
abbrev pub IsFree : Option ActionKind → Type 0
IsFree none = Unit
IsFree (some action) = requires_approval action ≡ false

-- The conditions of a prompt, on the session, the backend, the input and the time.
pub record IsAllowed (backend : AgentBackend) (input : AgentInput) (now : Instant)
    (s : AgentSession) : Type 0 where
  pub spoken : backend.version ≡ agent_protocol_version
  pub standing : s.status ≡ active
  pub timely : is_past s.deadline now ≡ false
  pub text_free : leaks s.protected_secrets input.prompt_text ≡ false
  pub refs_free :
      All (λ (r : SecretReference). leaks s.protected_secrets r.ref_id ≡ false) input.secret_refs
  pub policed : s.context.production ≡ true → input.tool ≢ some raw_shell
  pub approved : IsFree input.requested_action

-- What a method that succeeds did in turn.
bind_ok :
    {S A B : Type 0} (m : Method S A) (f : A → Method S B) (s : S) (b : B)
    → ((m >>= f) s).0 ≡ ok b
    → (a : A) × ((m s).0 ≡ ok a) × ((f a (m s).1).0 ≡ ok b)
bind_ok {S = S} {A = A} m f s b h = after (m s) h
  where
    after :
        (p : Result A × S)
        → ((lift p.0 >>= f) p.1).0 ≡ ok b
        → (a : A) × (p.0 ≡ ok a) × ((f a p.1).0 ≡ ok b)
    after (ok a, s') h = (a, refl, h)
    after (err e, s') h = absurd (cc)
    after (panic, s') h = absurd (cc)

require_ok : {S : Type 0} (b : Bool) (e : CoreError) (s : S) → (require b e s).0 ≡ ok tt → b ≡ true
require_ok true e s h = refl
require_ok false e s h = absurd (cc)

status_eq_iff : (a b : SessionStatus) → status_eq a b ≡ true → a ≡ b
status_eq_iff active active h = refl
status_eq_iff paused paused h = refl
status_eq_iff finished finished h = refl
status_eq_iff expired expired h = refl
status_eq_iff active paused h = cc
status_eq_iff active finished h = cc
status_eq_iff active expired h = cc
status_eq_iff paused active h = cc
status_eq_iff paused finished h = cc
status_eq_iff paused expired h = cc
status_eq_iff finished active h = cc
status_eq_iff finished paused h = cc
status_eq_iff finished expired h = cc
status_eq_iff expired active h = cc
status_eq_iff expired paused h = cc
status_eq_iff expired finished h = cc

check_timeout_ok :
    (now : Instant) (s : AgentSession)
    → (check_timeout now s).0 ≡ ok tt
    → (is_past s.deadline now ≡ false) × ((check_timeout now s).1 ≡ s)
unfolding check_timeout
check_timeout_ok now s h = ground arith

scan_refs_ok :
    (rs : List SecretReference) (s : AgentSession)
    → (scan_refs rs s).0 ≡ ok tt
    → All (λ (r : SecretReference). leaks s.protected_secrets r.ref_id ≡ false) rs
      × ((scan_refs rs s).1 ≡ s)
unfolding scan_refs scan_text
scan_refs_ok [] s h = (tt, refl)
scan_refs_ok (r ∷ rs) s h = ground (arith, scan_refs_ok rs s)

check_policy_ok :
    (input : AgentInput) (s : AgentSession)
    → (check_policy input s).0 ≡ ok tt
    → (s.context.production ≡ true → input.tool ≢ some raw_shell) × ((check_policy input s).1 ≡ s)
unfolding check_policy record_denial authorize
check_policy_ok input s h = ground arith

asks_ok :
    (action : Option ActionKind) (s : AgentSession) → (asks action s).0 ≡ ok tt → IsFree action
unfolding ask_approval
asks_ok none s h = tt
asks_ok (some action) s h = ground arith

screen_ok :
    (input : AgentInput) (s : AgentSession)
    → (screen input s).0 ≡ ok tt
    → (leaks s.protected_secrets input.prompt_text ≡ false)
      × All (λ (r : SecretReference). leaks s.protected_secrets r.ref_id ≡ false) input.secret_refs
      × (s.context.production ≡ true → input.tool ≢ some raw_shell)
      × IsFree input.requested_action
unfolding scan_text
screen_ok input s h =
    let (_, scanned, rest) =
      bind_ok (scan_text input.prompt_text)
        (λ _. scan_refs input.secret_refs >> (check_policy input >> asks input.requested_action)) s
        tt h in
    let (_, refs, policed) =
      bind_ok (scan_refs input.secret_refs) (λ _. check_policy input >> asks input.requested_action)
        s tt rest in
    let (free, kept) = scan_refs_ok input.secret_refs s refs in
    let (_, policy, asked) =
      bind_ok (check_policy input) (λ _. asks input.requested_action)
        (scan_refs input.secret_refs s).1 tt policed in
    let (shell, _) =
      check_policy_ok input s (sym (ap (λ x. (check_policy input x).0) kept) ∙ policy) in
    (ground arith, free, shell, asks_ok input.requested_action _ asked)

gate_ok :
    (backend : AgentBackend) (input : AgentInput) (now : Instant) (s : AgentSession)
    → (gate backend input now s).0 ≡ ok tt
    → IsAllowed backend input now s
unfolding gate ensure_protocol_version require_status
gate_ok backend input now s h =
    let (_, version, standing) =
      bind_ok (lift (ensure_protocol_version backend.version))
        (λ _. require_status active >> (check_timeout now >> screen input)) s tt h in
    let (_, status, timely) =
      bind_ok (require_status active) (λ _. check_timeout now >> screen input) s tt standing in
    let (_, time, screened) = bind_ok (check_timeout now) (λ _. screen input) s tt timely in
    let (before, kept) = check_timeout_ok now s time in
    let (text_free, refs_free, policed, approved) =
      screen_ok input s (sym (ap (λ x. (screen input x).0) kept) ∙ screened) in
    record {
      spoken = ground arith;
      standing =
          status_eq_iff s.status active
            (require_ok (status_eq s.status active) session_state s status);
      timely = before;
      text_free = text_free;
      refs_free = refs_free;
      policed = policed;
      approved = approved;
    }

is_ok_value : {A : Type 0} (r : Result A) → is_ok r ≡ true → (a : A) × (r ≡ ok a)
is_ok_value (ok a) h = (a, refl)
is_ok_value (err e) h = absurd (cc)
is_ok_value panic h = absurd (cc)

-- A prompt that succeeds had a backend that speaks version 1 of the protocol, an active session, a
-- deadline that was not over, no protected secret in its text or its references, no raw shell in
-- production, and no requested action that needs an approval.
pub prompt-IsAllowed :
    (backend : AgentBackend) (input : AgentInput) (now : Instant) (s : AgentSession)
    → is_ok (prompt backend input now s).0 ≡ true
    → IsAllowed backend input now s
unfolding prompt
prompt-IsAllowed backend input now s h =
    let (es, done) = is_ok_value (prompt backend input now s).0 h in
    let (_, passed, _) = bind_ok (gate backend input now) (λ _. answer backend input) s es done in
    gate_ok backend input now s passed
