-- ===== src/Resource/Phase.antt =====
-- `HealthState`, `ResourcePhase` with its graph and health, and `ObservationSource`
-- (crates/labrys-core/src/controller.rs).
use labrys.Base.{Bool, true, false}

pub data HealthState : Type 0 where
  unknown provisioning healthy degraded failed paused : HealthState

pub data ResourcePhase : Type 0 where
  requested provisioning ready degraded failed deleting deleted : ResourcePhase

abbrev pub phase_eq : ResourcePhase → ResourcePhase → Bool
phase_eq requested requested = true
phase_eq ResourcePhase.provisioning ResourcePhase.provisioning = true
phase_eq ready ready = true
phase_eq ResourcePhase.degraded ResourcePhase.degraded = true
phase_eq ResourcePhase.failed ResourcePhase.failed = true
phase_eq deleting deleting = true
phase_eq deleted deleted = true
phase_eq _ _ = false

unfoldable pub is_terminal : ResourcePhase → Bool
is_terminal deleted = true
is_terminal _ = false

unfoldable pub can_transition_to : ResourcePhase → ResourcePhase → Bool
can_transition_to requested ResourcePhase.provisioning = true
can_transition_to requested ResourcePhase.failed = true
can_transition_to requested deleting = true
can_transition_to ResourcePhase.provisioning ready = true
can_transition_to ResourcePhase.provisioning ResourcePhase.degraded = true
can_transition_to ResourcePhase.provisioning ResourcePhase.failed = true
can_transition_to ResourcePhase.provisioning deleting = true
can_transition_to ready ResourcePhase.degraded = true
can_transition_to ready ResourcePhase.failed = true
can_transition_to ready ResourcePhase.provisioning = true
can_transition_to ready deleting = true
can_transition_to ResourcePhase.degraded ready = true
can_transition_to ResourcePhase.degraded ResourcePhase.failed = true
can_transition_to ResourcePhase.degraded deleting = true
can_transition_to ResourcePhase.failed requested = true
can_transition_to ResourcePhase.failed ResourcePhase.provisioning = true
can_transition_to ResourcePhase.failed deleting = true
can_transition_to deleting deleted = true
can_transition_to _ _ = false

unfoldable pub health : ResourcePhase → HealthState
health requested = HealthState.provisioning
health ResourcePhase.provisioning = HealthState.provisioning
health ready = healthy
health ResourcePhase.degraded = HealthState.degraded
health ResourcePhase.failed = HealthState.failed
health deleting = unknown
health deleted = unknown

pub data ObservationSource : Type 0 where
  platform_probe provider_callback : ObservationSource
