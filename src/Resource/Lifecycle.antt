-- ===== src/Resource/Lifecycle.antt =====
-- `Resource` and its methods (crates/labrys-core/src/controller.rs).
use labrys.Base.{
  ℕ, ◌+◌, ◌*◌, ◌%◌, ◌^◌, min, Bool, not, ◌||◌, Option, none, some, List, [], ◌∷◌, Text, push, last,
  Result, ok, panic, reconciliation, Method, pure, require, gets, modify, lift, ◌>>=◌, ◌>>◌,
}
use labrys.Base.Clock.{Instant, after}
use labrys.Retry.{RetryPolicy, delay_for, u64_max}
use labrys.Resource.Redact.{redact_reason}
use labrys.Resource.Phase.{
  ResourcePhase, requested, ready, deleting, deleted, phase_eq, can_transition_to,
  ObservationSource, platform_probe, provider_callback,
}

-- The field `from` of the source, and its `to`, are spelled in full.
pub record ResourceTransition : Type 0 where
  pub from_phase : ResourcePhase
  pub to_phase : ResourcePhase
  pub at : Instant
  pub source : ObservationSource
  pub reason : Option Text

pub record FailureRecord : Type 0 where
  pub reason : Text
  pub policy : RetryPolicy
  pub attempts : ℕ  -- u32
  pub next_retry_at : Instant

pub record Resource : Type 0 where
  pub id : Text
  pub kind : Text
  pub desired_version : ℕ  -- u64
  pub phase : ResourcePhase
  pub generation : ℕ  -- u32
  pub failure : Option FailureRecord
  pub transitions : List ResourceTransition

-- `Resource::request`; the fresh identifier is an argument.
unfoldable pub request : Text → Text → ℕ → Instant → Resource
request fresh kind desired_version at = record {
  id = fresh;
  kind = kind;
  desired_version = desired_version;
  phase = requested;
  generation = 0;
  failure = none;
  transitions =
      record {
        from_phase = requested;
        to_phase = requested;
        at = at;
        source = platform_probe;
        reason = none;
      }
      ∷ [];
}

-- `self.transitions.last().expect(..).to`.
unfoldable pub last_to : List ResourceTransition → Result ResourcePhase
last_to ts = elim (last ts) [ some t ↦ ok t.to_phase | none ↦ panic ]

unfoldable pub observe :
    ResourcePhase → ObservationSource → Option Text → Instant → Method Resource ResourceTransition
observe next source reason at = do
  phase ← gets (λ r. r.phase)
  require (can_transition_to phase next) reconciliation
  require (not (phase_eq next phase)) reconciliation
  modify (λ r. record r { phase = next })
  from ← gets (λ r. last_to r.transitions)
  from_phase ← lift from
  let t : ResourceTransition = record {
    from_phase = from_phase;
    to_phase = next;
    at = at;
    source = source;
    reason = reason;
  }
  modify (λ r. record r { transitions = push r.transitions t })
  pure t

-- `self.failure.as_ref().map_or(1, |f| f.attempts + 1)`.
unfoldable pub next_attempt : Option FailureRecord → ℕ
next_attempt none = 1
next_attempt (some f) = (f.attempts + 1) % 2 ^ 32

unfoldable pub fail : Text → List Text → RetryPolicy → Instant → Method Resource (Unit {0})
fail reason secrets policy at = do
  observe ResourcePhase.failed provider_callback (some (redact_reason reason secrets)) at
  attempts ← gets (λ r. next_attempt r.failure)
  modify (λ r. record r { generation = (r.generation + 1) % 2 ^ 32 })
  delay ← lift (delay_for policy attempts)
  modify (λ r. record r {
    failure = some (record {
      reason = redact_reason reason secrets;
      policy = policy;
      attempts = attempts;
      next_retry_at = after at delay;
    });
  })

unfoldable pub begin_delete : Instant → Method Resource (Unit {0})
begin_delete at = do observe deleting platform_probe none at; pure tt

unfoldable pub mark_deleted : Instant → Method Resource (Unit {0})
mark_deleted at = do
  observe deleted provider_callback none at
  modify (λ r. record r { failure = none })

unfoldable pub is_ready : Resource → Bool
is_ready r = phase_eq r.phase ready

unfoldable pub is_gone : Resource → Bool
is_gone r = phase_eq r.phase deleting || phase_eq r.phase deleted

-- `desired_version.saturating_mul(1000).saturating_add(generation)` on u64.
unfoldable pub convergence_version : Resource → ℕ
convergence_version r = min (min (r.desired_version * 1000) u64_max + r.generation) u64_max
