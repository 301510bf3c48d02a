-- ===== src/Agent/Soundness.antt =====
-- What every call keeps true of the log of a session.
use labrys.Base.{
  ℕ, ◌+◌, ◌≡◌, refl, ◌∙◌, false, List, [], ◌∷◌, Text, length, push, length-push, Result, ok, err,
  panic, Method, gets, modify, lift, ◌>>=◌, ◌>>◌, arith,
}
use labrys.Agent.Protocol.{BackendIdentity, AgentEvent, AgentContext}
use labrys.Agent.Sessions.{AgentSession, opened, leaks, push_event}

-- Numbered from `n`, of the session `id`, and free of the protected values.
abbrev pub IsLog : Text → List Text → ℕ → List AgentEvent → Type 0
IsLog id secrets n [] = Unit
IsLog id secrets n (e ∷ es) =
    (e.sequence ≡ n)
    × (e.session_id ≡ id)
    × (leaks secrets e.detail ≡ false)
    × IsLog id secrets (n + 1) es

abbrev pub IsSound : AgentSession → Type 0
IsSound s = IsLog s.id s.protected_secrets 0 s.events × (s.next_sequence ≡ length s.events)

IsLog-push :
    (id : Text) (secrets : List Text) (n : ℕ) (es : List AgentEvent) (e : AgentEvent)
    → IsLog id secrets n es
    → e.sequence ≡ length es + n
    → e.session_id ≡ id
    → leaks secrets e.detail ≡ false
    → IsLog id secrets n (push es e)
IsLog-push id secrets n [] e h number own free = (omega (arith, number), own, free, tt)
IsLog-push id secrets n (x ∷ es) e h number own free =
    (h.0, h.1, h.2, IsLog-push id secrets (n + 1) es e h.3 (omega (arith, number)) own free)

-- What a session becomes: still the same session, and sound when it was.
pub record Keeps (s s' : AgentSession) : Type 0 where
  pub same_id : s'.id ≡ s.id
  pub same_secrets : s'.protected_secrets ≡ s.protected_secrets
  pub still_sound : IsSound s → IsSound s'

pub Keeps-refl : (s : AgentSession) → Keeps s s
Keeps-refl s = record { same_id = refl; same_secrets = refl; still_sound = λ h. h }

pub Keeps-trans : (s t u : AgentSession) → Keeps s t → Keeps t u → Keeps s u
Keeps-trans s t u h k = record {
  same_id = k.same_id ∙ h.same_id;
  same_secrets = k.same_secrets ∙ h.same_secrets;
  still_sound = λ p. k.still_sound (h.still_sound p);
}

abbrev pub KeepsAll : {A : Type 0} → Method AgentSession A → Type 0
KeepsAll m = (s : AgentSession) → Keeps s (m s).1

pub Keeps-lift : {A : Type 0} (r : Result A) → KeepsAll (lift r)
Keeps-lift r s = Keeps-refl s

pub Keeps-gets : {A : Type 0} (f : AgentSession → A) → KeepsAll (gets f)
Keeps-gets f s = Keeps-refl s

pub Keeps-bind :
    {A B : Type 0} (m : Method AgentSession A) (f : A → Method AgentSession B)
    → KeepsAll m
    → ((a : A) → KeepsAll (f a))
    → KeepsAll (m >>= f)
Keeps-bind {A = A} m f hm hf s = after (m s) (hm s)
  where
    after : (p : Result A × AgentSession) → Keeps s p.1 → Keeps s ((lift p.0 >>= f) p.1).1
    after (ok a, s') h = Keeps-trans s s' (f a s').1 h (hf a s')
    after (err e, s') h = h
    after (panic, s') h = h

pub Keeps-then :
    {A B : Type 0} (m : Method AgentSession A) (k : Method AgentSession B)
    → KeepsAll m
    → KeepsAll k
    → KeepsAll (m >> k)
Keeps-then m k hm hk s = Keeps-bind m (λ _. k) hm (λ _. hk) s

-- A write that leaves the log, its number and the identity alone.
pub Keeps-modify :
    (f : AgentSession → AgentSession)
    → ((s : AgentSession) → (f s).id ≡ s.id)
    → ((s : AgentSession) → (f s).protected_secrets ≡ s.protected_secrets)
    → ((s : AgentSession) → (f s).events ≡ s.events)
    → ((s : AgentSession) → (f s).next_sequence ≡ s.next_sequence)
    → KeepsAll (modify f)
Keeps-modify f i p e n s = record {
  same_id = i s;
  same_secrets = p s;
  still_sound = λ h. rw (i s, p s, e s, n s) h;
}

pub Keeps-push :
    (s : AgentSession) (e : AgentEvent)
    → e.sequence ≡ s.next_sequence
    → e.session_id ≡ s.id
    → leaks s.protected_secrets e.detail ≡ false
    → Keeps s (push_event e s)
Keeps-push s e number own free = record {
  same_id = refl;
  same_secrets = refl;
  still_sound = λ h. (
    IsLog-push s.id s.protected_secrets 0 s.events e h.0 (omega (arith, number, h.1)) own free,
    omega (arith, h.1, length-push s.events e),
  );
}

pub opened-IsSound :
    (id : Text) (backend : BackendIdentity) (context : AgentContext) (secrets : List Text)
    → IsSound (opened id backend context secrets)
opened-IsSound id backend context secrets = (tt, refl)
