-- ===== src/Deployment/Rollouts.antt =====
-- `Rollout` and its methods (crates/labrys-core/src/deployment.rs).
use labrys.Base.{
  Bool, ◌&&◌, ◌||◌, Option, none, some, List, [], ◌∷◌, Text, text_eq, find, modify_first, push,
  is_some, Result, ok, err, CoreError, not_found, Method, pure, require, gets, modify, lift, ◌>>=◌,
  ◌>>◌, if◌then◌else◌,
}
use labrys.Base.Clock.{Instant}
use labrys.Runtime.{RuntimeConfig}
use labrys.Deployment.Artifacts.{Revision}
use labrys.Deployment.Phase.{healthy, superseded, same_phase}
use labrys.Deployment.Lifecycle.{Deployment, new_deployment, mark_superseded}

pub record Rollout : Type 0 where
  pub deployments : List Deployment
  pub current : Option Text

unfoldable pub new_rollout : Rollout
new_rollout = record { deployments = []; current = none }

abbrev pub is_id : Text → Deployment → Bool
is_id id d = text_eq d.id id

unfoldable pub get : Text → Rollout → Option Deployment
get id r = find (is_id id) r.deployments

-- A method of the deployment that `get_mut` finds, run in place; nothing where there is none.
abbrev pub on_deployment : Text → Method Deployment (Unit {0}) → Method Rollout (Unit {0})
on_deployment id m r = elim (find (is_id id) r.deployments) [
  | none ↦ (ok tt, r)
  | some d ↦
      ((m d).0, record r { deployments = modify_first (is_id id) (λ x. (m x).1) r.deployments })
]

-- `Iterator::rev().find`: the last match.
abbrev pub find_last : {A : Type 0} → (A → Bool) → List A → Option A
find_last p [] = none
find_last p (x ∷ xs) = elim (find_last p xs) [
  | some y ↦ some y
  | none ↦ if p x then some x else none
]

abbrev pub id_of : Option Deployment → Option Text
id_of none = none
id_of (some d) = some d.id

abbrev pub is_restorable : Deployment → Bool
is_restorable d = (same_phase d.phase healthy || same_phase d.phase superseded) && is_some d.image

unfoldable pub rollback_target : Rollout → Option Text
rollback_target r = id_of (find_last is_restorable r.deployments)

-- `Rollout::begin`; the fresh identifier is an argument.
unfoldable pub begin :
    Text → Text → Text → Revision → RuntimeConfig → List Text → Instant → Method Rollout Text
begin fresh application_id environment_id revision runtime resources at = do
  target ← gets rollback_target
  d ← lift (new_deployment fresh application_id environment_id revision runtime resources target at)
  modify (λ r. record r { deployments = push r.deployments d })
  pure d.id

abbrev pub supersede_healthy : Instant → Method Deployment (Unit {0})
supersede_healthy at d = if same_phase d.phase healthy then mark_superseded at d else (ok tt, d)

-- `previous` is superseded when it is another deployment and still healthy.
abbrev pub supersede : Option Text → Text → Instant → Method Rollout (Unit {0})
supersede none id at = pure tt
supersede (some previous) id at =
    if text_eq previous id then pure tt else on_deployment previous (supersede_healthy at)

abbrev pub found : Option Deployment → Result Deployment
found none = err not_found
found (some d) = ok d

unfoldable pub promote : Text → Instant → Method Rollout (Unit {0})
unfolding get
promote id at = do
  looked_up ← gets (λ r. found (get id r))
  d ← lift looked_up
  require (same_phase d.phase healthy) CoreError.deployment
  previous ← gets (λ r. r.current)
  supersede previous id at
  modify (λ r. record r { current = some id })

abbrev pub digest_at : Option Deployment → Option Text
digest_at none = none
digest_at (some d) = elim d.image [ none ↦ none | some image ↦ some image.digest ]

unfoldable pub current_digest : Rollout → Option Text
unfolding get
current_digest r = elim r.current [ none ↦ none | some id ↦ digest_at (get id r) ]
