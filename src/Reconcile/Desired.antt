-- ===== src/Reconcile/Desired.antt =====
-- `DesiredState` and `ObservedState` (crates/labrys-core/src/state.rs). The type of JSON values is
-- serde_json's: a parameter.
use labrys.Base.{
  ℕ, ◌+◌, ◌%◌, ◌^◌, ◌==◌, Bool, true, false, not, Option, none, [], Text, text, TreeMap,
}
use labrys.Base.Clock.{Instant}

pub data ObservedStatus : Type 0 where
  unknown healthy degraded unhealthy : ObservedStatus

pub record DesiredState (Value : Type 0) : Type 0 where
  pub version : ℕ  -- u64
  pub profiles : TreeMap Value
  pub config : Value

pub record ObservedState : Type 0 where
  pub desired_version : ℕ  -- u64
  pub status : ObservedStatus
  pub last_observed_at : Instant
  pub detail : Option Text

module _ {Value : Type 0} where
  -- `DesiredState::initial`, given JSON's null.
  unfoldable pub initial : Value → DesiredState Value
  initial null = record { version = 1; profiles = []; config = null }

  unfoldable pub with_config : Value → DesiredState Value → DesiredState Value
  with_config config d = record {
    version = (d.version + 1) % 2 ^ 64;
    profiles = d.profiles;
    config = config;
  }

  unfoldable pub is_stale : ObservedState → DesiredState Value → Bool
  is_stale observed desired = not (observed.desired_version == desired.version)

-- `ObservedState::unknown`, given the clock.
unfoldable pub unknown_at : ℕ → Instant → ObservedState
unknown_at desired_version now = record {
  desired_version = desired_version;
  status = unknown;
  last_observed_at = now;
  detail = none;
}

abbrev pub is_status_healthy : ObservedStatus → Bool
is_status_healthy healthy = true
is_status_healthy _ = false

-- `{:?}` of a status.
abbrev pub status_name : ObservedStatus → Text
status_name unknown = text "Unknown"
status_name healthy = text "Healthy"
status_name degraded = text "Degraded"
status_name unhealthy = text "Unhealthy"
