-- ===== src/Deployment/Phase.antt =====
-- `DeploymentPhase` and its graph (crates/labrys-core/src/deployment.rs).
use labrys.Base.{Bool, true, false}

pub data DeploymentPhase : Type 0 where
  pending building deploying healthy degraded failed superseded rolled_back : DeploymentPhase

abbrev pub same_phase : DeploymentPhase → DeploymentPhase → Bool
same_phase pending pending = true
same_phase building building = true
same_phase deploying deploying = true
same_phase healthy healthy = true
same_phase degraded degraded = true
same_phase failed failed = true
same_phase superseded superseded = true
same_phase rolled_back rolled_back = true
same_phase _ _ = false

unfoldable pub is_terminal : DeploymentPhase → Bool
is_terminal rolled_back = true
is_terminal _ = false

unfoldable pub serves_traffic : DeploymentPhase → Bool
serves_traffic phase = same_phase phase healthy

unfoldable pub can_transition_to : DeploymentPhase → DeploymentPhase → Bool
can_transition_to pending building = true
can_transition_to pending failed = true
can_transition_to building deploying = true
can_transition_to building failed = true
can_transition_to deploying healthy = true
can_transition_to deploying degraded = true
can_transition_to deploying failed = true
can_transition_to healthy degraded = true
can_transition_to healthy superseded = true
can_transition_to healthy rolled_back = true
can_transition_to degraded healthy = true
can_transition_to degraded failed = true
can_transition_to degraded rolled_back = true
can_transition_to failed rolled_back = true
can_transition_to superseded rolled_back = true
can_transition_to _ _ = false
