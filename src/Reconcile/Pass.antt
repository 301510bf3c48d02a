-- ===== src/Reconcile/Pass.antt =====
-- `Drift`, `Reconciliation` and what the controllers share (crates/labrys-core/src/controller.rs).
use labrys.Base.{ℕ, Bool, true, false, List, [], ◌∷◌, Text, text}
use labrys.Base.Clock.{Instant}
use labrys.Retry.{default_policy}
use labrys.Resource.{ResourcePhase, requested, ready, deleting, deleted}
use labrys.Queue.{JobAction, idempotency_key, JobQueue, enqueue}

pub data DriftKind : Type 0 where
  missing stale unhealthy terminated : DriftKind

pub record Drift : Type 0 where
  pub kind : DriftKind
  pub detail : Text

pub record Reconciliation : Type 0 where
  pub controller : Text
  pub target : Text
  pub desired_version : ℕ
  pub observed_version : ℕ
  pub in_sync : Bool
  pub drift : List Drift
  pub actions : List Text
  pub at : Instant

-- `drift.is_empty()`.
abbrev pub no_drift : List Drift → Bool
no_drift [] = true
no_drift (_ ∷ _) = false

-- `queue.enqueue(target, action, version, RetryPolicy::default(), now)` and `actions.push(key)`.
-- The fresh identifier of the job is an argument.
abbrev pub act : Text → Text → JobAction → ℕ → Instant → JobQueue → List Text × JobQueue
act fresh target action version now q = (
  idempotency_key target action version ∷ [],
  (enqueue fresh target action version default_policy now q).1,
)

-- `{:?}` of a phase.
abbrev pub phase_name : ResourcePhase → Text
phase_name requested = text "Requested"
phase_name ResourcePhase.provisioning = text "Provisioning"
phase_name ready = text "Ready"
phase_name ResourcePhase.degraded = text "Degraded"
phase_name ResourcePhase.failed = text "Failed"
phase_name deleting = text "Deleting"
phase_name deleted = text "Deleted"
