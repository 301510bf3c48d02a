-- ===== src/Agent/Replay.antt =====
-- Restoring a session from its log, and the names that backends use for events.
use labrys.Base.{
  ℕ, ◌+◌, ◌==◌, ==_refl, text_eq, text_eq_refl, ◌≡◌, refl, sym, ◌∙◌, ap, Bool, true, false, not,
  ◌&&◌, List, [], ◌∷◌, ◌++◌, Text, All, length, ok, err, Method, pure, require, modify, lift,
  if◌then◌else◌, ◌>>◌, session_state, secret_leak, arith,
}
use mathlib.Core.List.{append-nil, append_assoc}
use labrys.Agent.Protocol
use labrys.Agent.Protocol.{
  BackendIdentity, AgentBackendKind, backend_kind_eq, identity_eq, AgentEvent, AgentEventKind,
  AgentBackend, AgentContext, event_name, ensure_protocol_version,
}
use labrys.Agent.Sessions.{
  AgentSession, opened, open_session, leaks, replay_event, push_event, scan_text,
}
use labrys.Agent.Backends.{normalize}
use labrys.Agent.Calls.{Call, calls}
use labrys.Agent.Soundness.{IsLog}
use labrys.Agent.Sequence.{open_session-calls-IsSound}

-- `replay_event(e)?` for each event in turn.
abbrev pub replay_all : List AgentEvent → Method AgentSession (Unit {0})
replay_all [] = pure tt
replay_all (e ∷ es) = do replay_event e; replay_all es

identity_eq_refl : (b : BackendIdentity) → identity_eq b b ≡ true
identity_eq_refl b = same b.kind
  where
    same : (k : AgentBackendKind) → (backend_kind_eq k k && text_eq b.name b.name) ≡ true
    same Protocol.native = text_eq_refl b.name
    same Protocol.external = text_eq_refl b.name

replay_event-push :
    (e : AgentEvent) (t : AgentSession)
    → e.session_id ≡ t.id
    → e.backend ≡ t.backend
    → e.sequence ≡ t.next_sequence
    → leaks t.protected_secrets e.detail ≡ false
    → replay_event e t ≡ (ok tt, push_event e t)
unfolding replay_event scan_text
replay_event-push e t own same next free =
    after (text_eq e.session_id t.id) (identity_eq e.backend t.backend)
      (e.sequence == t.next_sequence) (leaks t.protected_secrets e.detail)
      (rw own (text_eq_refl t.id)) (rw same (identity_eq_refl t.backend))
      (rw next (==_refl t.next_sequence)) free
  where
    after :
        (a b c d : Bool)
        → a ≡ true
        → b ≡ true
        → c ≡ true
        → d ≡ false
        → (require a session_state
              >> (require b session_state
                  >> (require c session_state
                      >> (require (not d) secret_leak >> modify (push_event e)))))
            t
          ≡ (ok tt, push_event e t)
    after true true true false p q r h = refl
    after true true true true p q r h = absurd (cc)
    after true true false d p q r h = absurd (cc)
    after true false c d p q r h = absurd (cc)
    after false b c d p q r h = absurd (cc)

-- A session with another log.
abbrev with_log : AgentSession → List AgentEvent → ℕ → AgentSession
with_log t events next_sequence = record t { events = events; next_sequence = next_sequence }

replay_all-append :
    (es : List AgentEvent) (t : AgentSession)
    → IsLog t.id t.protected_secrets t.next_sequence es
    → All (λ (e : AgentEvent). e.backend ≡ t.backend) es
    → replay_all es t ≡ (ok tt, with_log t (t.events ++ es) (t.next_sequence + length es))
replay_all-append [] t h b =
    let whole : t.next_sequence + 0 ≡ t.next_sequence = omega arith in
    sym (
      ap (λ l. (ok tt, with_log t l (t.next_sequence + 0))) (append-nil t.events)
      ∙ ap (λ n. (ok tt, with_log t t.events n)) whole)
replay_all-append (e ∷ es) t h b =
    let rest = replay_all-append es (push_event e t) h.3 b.1 in
    let order = append_assoc t.events (e ∷ []) es in
    let total : t.next_sequence + 1 + length es ≡ t.next_sequence + length (e ∷ es) = omega arith in
    ap (λ r. (lift r.0 >> replay_all es) r.1) (replay_event-push e t h.1 b.0 h.0 h.2)
    ∙ rest
    ∙ ap (λ l. (ok tt, with_log t l (t.next_sequence + 1 + length es))) order
    ∙ ap (λ n. (ok tt, with_log t (t.events ++ (e ∷ es)) n)) total

opened_fresh :
    (fresh : Text) (backend : AgentBackend) (context : AgentContext) (secrets : List Text)
    {s : AgentSession}
    → open_session fresh backend context secrets ≡ ok s
    → opened fresh backend.identity context secrets ≡ s
unfolding open_session ensure_protocol_version
opened_fresh fresh backend context secrets h = grind arith

moved :
    {a b : Text} {p q : List Text} {m n : ℕ} (es : List AgentEvent)
    → a ≡ b
    → p ≡ q
    → m ≡ n
    → IsLog a p m es
    → IsLog b q n es
moved es e f g h = rw (← e, ← f, ← g) h

-- The log of a session, after any calls of it, can be replayed into the session as it was opened
-- when every event carries the session's backend: the replay gives back the log and the number of
-- the next event.
pub replay_all-calls :
    (fresh : Text) (backend : AgentBackend) (context : AgentContext) (secrets : List Text)
    (cs : List Call) (s : AgentSession)
    → open_session fresh backend context secrets ≡ ok s
    → All (λ (e : AgentEvent). e.backend ≡ s.backend) (calls cs s).events
    → replay_all (calls cs s).events s ≡ (
      ok tt,
      record s { events = (calls cs s).events; next_sequence = (calls cs s).next_sequence },
    )
replay_all-calls fresh backend context secrets cs s h own =
    let made = opened_fresh fresh backend context secrets h in
    let (sound, id, hidden) = open_session-calls-IsSound fresh backend context secrets cs h in
    let s_id : s.id ≡ fresh = ap (λ x. x.id) (sym made) in
    let s_secrets : s.protected_secrets ≡ secrets = ap (λ x. x.protected_secrets) (sym made) in
    let s_events : s.events ≡ [] = ap (λ x. x.events) (sym made) in
    let s_next : s.next_sequence ≡ 0 = ap (λ x. x.next_sequence) (sym made) in
    let log : IsLog s.id s.protected_secrets s.next_sequence (calls cs s).events =
      moved (calls cs s).events (sym (s_id ∙ sym id)) (sym (s_secrets ∙ sym hidden)) (sym s_next)
        sound.0 in
    replay_all-append (calls cs s).events s log own
    ∙ ap
        (λ l. (
          ok tt,
          with_log s (l ++ (calls cs s).events) (s.next_sequence + length (calls cs s).events),
        ))
        s_events
    ∙ ap (λ n. (ok tt, with_log s (calls cs s).events n)) (omega (arith, s_next, sound.1))

-- The kinds that have a name in the table of `normalize`.
abbrev pub is_backend_kind : AgentEventKind → Bool
is_backend_kind Protocol.approval_requested = false
is_backend_kind Protocol.denied = false
is_backend_kind Protocol.interrupted = false
is_backend_kind Protocol.resumed = false
is_backend_kind Protocol.timed_out = false
is_backend_kind _ = true

-- The canonical name of a kind that a backend may report is normalized back to that kind; the name
-- of a kind that only the platform records is refused.
pub normalize-event_name :
    (kind : AgentEventKind) (detail : Text)
    → normalize (event_name kind) detail
      ≡ (if is_backend_kind kind then ok (kind, detail) else err session_state)
unfolding normalize event_name text_eq
normalize-event_name Protocol.planning detail = refl
normalize-event_name Protocol.file_changed detail = refl
normalize-event_name Protocol.command_run detail = refl
normalize-event_name Protocol.capability_requested detail = refl
normalize-event_name Protocol.build detail = refl
normalize-event_name Protocol.preview detail = refl
normalize-event_name Protocol.deployment detail = refl
normalize-event_name Protocol.verification detail = refl
normalize-event_name Protocol.approval_requested detail = refl
normalize-event_name Protocol.denied detail = refl
normalize-event_name Protocol.interrupted detail = refl
normalize-event_name Protocol.resumed detail = refl
normalize-event_name Protocol.timed_out detail = refl
normalize-event_name Protocol.completed detail = refl
