-- ===== src/Resource/Graph.antt =====
-- The lifecycle graph of `ResourcePhase`.
use labrys.Base.{◌≡◌, refl, ◌↔◌, true, false, arith}
use labrys.Resource.Phase.{
  ResourcePhase, requested, ready, deleting, deleted, phase_eq, is_terminal, can_transition_to,
  healthy, health,
}

-- The phases that legal transitions lead to.
pub data Reaches : ResourcePhase → ResourcePhase → Type 0 where
  here : {p : ResourcePhase} → Reaches p p
  step : {p q r : ResourcePhase} → can_transition_to p q ≡ true → Reaches q r → Reaches p r

pub can_transition_to-ne : (p : ResourcePhase) → can_transition_to p p ≡ false
unfolding can_transition_to
can_transition_to-ne requested = refl
can_transition_to-ne _ = refl

pub phase_eq_iff : (p q : ResourcePhase) → (phase_eq p q ≡ true) ↔ (p ≡ q)
phase_eq_iff p q = ground arith

pub ready_iff_healthy : (p : ResourcePhase) → (health p ≡ healthy) ↔ (p ≡ ready)
unfolding health
ready_iff_healthy p = ground arith

-- A phase is marked terminal exactly when no transition out of it is legal.
pub is_terminal_iff :
    (p : ResourcePhase)
    → (is_terminal p ≡ true) ↔ ((q : ResourcePhase) → can_transition_to p q ≡ false)
unfolding is_terminal can_transition_to
is_terminal_iff requested = (λ h. cc, λ h. cc (h deleting))
is_terminal_iff ResourcePhase.provisioning = (λ h. cc, λ h. cc (h deleting))
is_terminal_iff ready = (λ h. cc, λ h. cc (h deleting))
is_terminal_iff ResourcePhase.degraded = (λ h. cc, λ h. cc (h deleting))
is_terminal_iff ResourcePhase.failed = (λ h. cc, λ h. cc (h deleting))
is_terminal_iff deleting = (λ h. cc, λ h. cc (h deleted))
is_terminal_iff deleted = (λ h q. refl, λ h. refl)

-- From every phase the resource can still be deleted.
pub Reaches-deleted : (p : ResourcePhase) → Reaches p deleted
unfolding can_transition_to
Reaches-deleted deleted = here
Reaches-deleted deleting = step refl here
Reaches-deleted p = step {q = deleting} refl (step refl here)
