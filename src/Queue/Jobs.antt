-- ===== src/Queue/Jobs.antt =====
-- `JobAction`, `IdempotencyKey`, `JobStatus` and `Job` (crates/labrys-core/src/controller.rs).
-- A `Uuid` is its text of 32 hexadecimal digits, so an identifier prints as its prefix before it.
use labrys.Base.{
  ℕ, suc, ◌/◌, ◌%◌, ◌+◌, ◌++◌, zero, Bool, true, false, Option, [], ◌∷◌, Text, text, if◌then◌else◌,
  ltb,
}
use labrys.Base.Clock.{Instant}
use labrys.Retry.{RetryPolicy}

pub data JobAction : Type 0 where
  provision update rollout verify delete : JobAction

abbrev pub as_str : JobAction → Text
as_str provision = text "provision"
as_str update = text "update"
as_str rollout = text "rollout"
as_str verify = text "verify"
as_str delete = text "delete"

-- A u64 in decimal: twenty digits at most.
digits_from : ℕ → ℕ → Text → Text
digits_from zero n out = out
digits_from (suc fuel) n out =
    let longer = digits_from fuel (n / 10) ((n % 10 + b'0') ∷ out) in
    if ltb n 10 then (n + b'0') ∷ out else longer

unfoldable pub decimal : ℕ → Text
unfolding digits_from
decimal n = digits_from 20 n []

-- `format!("{target}:{}:v{version}", action.as_str())`.
unfoldable pub idempotency_key : Text → JobAction → ℕ → Text
unfolding decimal
idempotency_key target action version =
    target ++ (text ":" ++ (as_str action ++ (text ":v" ++ decimal version)))

pub data JobStatus : Type 0 where
  queued paused running succeeded dead : JobStatus

abbrev pub status_eq : JobStatus → JobStatus → Bool
status_eq queued queued = true
status_eq paused paused = true
status_eq running running = true
status_eq succeeded succeeded = true
status_eq dead dead = true
status_eq _ _ = false

abbrev pub is_in_flight : JobStatus → Bool
is_in_flight queued = true
is_in_flight paused = true
is_in_flight running = true
is_in_flight succeeded = false
is_in_flight dead = false

pub record Job : Type 0 where
  pub id : Text
  pub target : Text
  pub action : JobAction
  pub idempotency_key : Text
  pub status : JobStatus
  pub attempts : ℕ  -- u32
  pub policy : RetryPolicy
  pub next_attempt_at : Instant
  pub last_error : Option Text
  pub enqueued_at : Instant
  pub updated_at : Instant

-- `JobId::to_string`.
abbrev pub job_key : Text → Text
job_key id = text "job_" ++ id
