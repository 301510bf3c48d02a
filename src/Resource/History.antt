-- ===== src/Resource/History.antt =====
-- The transition evidence of a resource.
use labrys.Base.{
  ℕ, ◌≡◌, refl, inl, inr, true, false, Option, none, some, List, [], ◌∷◌, Text, push, ok, err,
  reconciliation, arith, Bool-cases,
}
use labrys.Base.Clock.{Instant}
use labrys.Retry.{RetryPolicy}
use labrys.Resource.Redact.{redact_reason}
use labrys.Resource.Phase.{
  ResourcePhase, requested, can_transition_to, phase_eq, ObservationSource, deleting, deleted,
  platform_probe, provider_callback,
}
use labrys.Resource.Lifecycle.{
  ResourceTransition, Resource, request, last_to, observe, fail, begin_delete, mark_deleted,
}

-- Legal steps that join end to end, from `p` to `q`.
abbrev pub Chain : ResourcePhase → List ResourceTransition → ResourcePhase → Type 0
Chain p [] q = p ≡ q
Chain p (t ∷ ts) q =
    (t.from_phase ≡ p) × (can_transition_to t.from_phase t.to_phase ≡ true) × Chain t.to_phase ts q

-- The evidence starts with the request and leads to the current phase.
abbrev pub Evidence : List ResourceTransition → ResourcePhase → Type 0
Evidence [] q = ⊥
Evidence (t ∷ ts) q = (t.to_phase ≡ requested) × Chain requested ts q

abbrev pub HasHistory : Resource → Type 0
HasHistory r = Evidence r.transitions r.phase

pub request-HasHistory :
    (fresh kind : Text) (version : ℕ) (at : Instant) → HasHistory (request fresh kind version at)
unfolding request
request-HasHistory fresh kind version at = (refl, refl)

last_to-Chain :
    (t : ResourceTransition) (ts : List ResourceTransition) {p q : ResourcePhase}
    → t.to_phase ≡ p
    → Chain p ts q
    → last_to (t ∷ ts) ≡ ok q
unfolding last_to
last_to-Chain t [] e c = cc
last_to-Chain t (u ∷ ts) e c = last_to-Chain u ts refl c.2

pub last_to-Evidence :
    (ts : List ResourceTransition) {q : ResourcePhase} → Evidence ts q → last_to ts ≡ ok q
last_to-Evidence [] h = absurd h
last_to-Evidence (t ∷ ts) h = last_to-Chain t ts h.0 h.1

Chain-push :
    (ts : List ResourceTransition) (t : ResourceTransition) (p : ResourcePhase) {q : ResourcePhase}
    → Chain p ts q
    → t.from_phase ≡ q
    → can_transition_to q t.to_phase ≡ true
    → Chain p (push ts t) t.to_phase
Chain-push [] t p c e legal = ground arith
Chain-push (u ∷ ts) t p c e legal = (c.0, c.1, Chain-push ts t u.to_phase c.2 e legal)

pub Evidence-push :
    (ts : List ResourceTransition) (t : ResourceTransition) {q : ResourcePhase}
    → Evidence ts q
    → t.from_phase ≡ q
    → can_transition_to q t.to_phase ≡ true
    → Evidence (push ts t) t.to_phase
Evidence-push [] t h e legal = absurd h
Evidence-push (u ∷ ts) t h e legal = (h.0, Chain-push ts t requested h.1 e legal)

moves-ne : (p q : ResourcePhase) → can_transition_to p q ≡ true → phase_eq q p ≡ false
unfolding can_transition_to
moves-ne p q h = ground arith

-- The record that an accepted observation writes.
abbrev pub evidence_of :
    Resource → ResourcePhase → ObservationSource → Option Text → Instant → ResourceTransition
evidence_of r next source reason at = record {
  from_phase = r.phase;
  to_phase = next;
  at = at;
  source = source;
  reason = reason;
}

module _ (next : ResourcePhase) (source : ObservationSource) (reason : Option Text)
    (at : Instant) where
  -- A legal observation moves the phase and records it, from the phase that the resource was in.
  pub observe-legal :
      (r : Resource)
      → HasHistory r
      → can_transition_to r.phase next ≡ true
      → let t = evidence_of r next source reason at in
        observe next source reason at r
        ≡ (ok t, record r { phase = next; transitions = push r.transitions t })
  unfolding observe
  observe-legal r h legal =
      rw legal (rw (moves-ne r.phase next legal) (rw (last_to-Evidence r.transitions h) refl))

  -- An illegal one is an error, and changes nothing.
  pub observe-illegal :
      (r : Resource)
      → can_transition_to r.phase next ≡ false
      → observe next source reason at r ≡ (err reconciliation, r)
  unfolding observe
  observe-illegal r illegal = rw illegal

  pub observe-HasHistory :
      (r : Resource) → HasHistory r → HasHistory (observe next source reason at r).1
  observe-HasHistory r h = elim (Bool-cases (can_transition_to r.phase next)) [
    | inl legal ↦
        rw (observe-legal r h legal)
          (Evidence-push r.transitions (evidence_of r next source reason at) h refl legal)
    | inr illegal ↦ rw (observe-illegal r illegal) h
  ]

pub fail-HasHistory :
    (reason : Text) (secrets : List Text) (policy : RetryPolicy) (at : Instant) (r : Resource)
    → HasHistory r
    → HasHistory (fail reason secrets policy at r).1
unfolding fail
fail-HasHistory reason secrets policy at r h =
    let kept =
      observe-HasHistory ResourcePhase.failed provider_callback
        (some (redact_reason reason secrets)) at r h in
    ground (arith, kept)

pub begin_delete-HasHistory :
    (at : Instant) (r : Resource) → HasHistory r → HasHistory (begin_delete at r).1
unfolding begin_delete
begin_delete-HasHistory at r h =
    ground (arith, observe-HasHistory deleting platform_probe none at r h)

pub mark_deleted-HasHistory :
    (at : Instant) (r : Resource) → HasHistory r → HasHistory (mark_deleted at r).1
unfolding mark_deleted
mark_deleted-HasHistory at r h =
    ground (arith, observe-HasHistory deleted provider_callback none at r h)

-- The calls that move a resource, with their arguments.
pub data Call : Type 0 where
  observing : ResourcePhase → ObservationSource → Option Text → Instant → Call
  failing : Text → List Text → RetryPolicy → Instant → Call
  deleting_from deleted_at : Instant → Call

abbrev pub call : Call → Resource → Resource
call (observing next source reason at) r = (observe next source reason at r).1
call (failing reason secrets policy at) r = (fail reason secrets policy at r).1
call (deleting_from at) r = (begin_delete at r).1
call (deleted_at at) r = (mark_deleted at r).1

abbrev pub calls : List Call → Resource → Resource
calls [] r = r
calls (c ∷ cs) r = calls cs (call c r)

call-HasHistory : (c : Call) (r : Resource) → HasHistory r → HasHistory (call c r)
call-HasHistory (observing next source reason at) = observe-HasHistory next source reason at
call-HasHistory (failing reason secrets policy at) = fail-HasHistory reason secrets policy at
call-HasHistory (deleting_from at) = begin_delete-HasHistory at
call-HasHistory (deleted_at at) = mark_deleted-HasHistory at

pub calls-HasHistory : (cs : List Call) (r : Resource) → HasHistory r → HasHistory (calls cs r)
calls-HasHistory [] r h = h
calls-HasHistory (c ∷ cs) r h = calls-HasHistory cs (call c r) (call-HasHistory c r h)

-- Whatever calls a requested resource has seen, accepted or refused, its transition evidence
-- starts at `requested`, joins end to end, follows the lifecycle graph and ends at its phase.
pub request-calls-HasHistory :
    (cs : List Call) (fresh kind : Text) (version : ℕ) (at : Instant)
    → HasHistory (calls cs (request fresh kind version at))
request-calls-HasHistory cs fresh kind version at =
    calls-HasHistory cs (request fresh kind version at) (request-HasHistory fresh kind version at)
