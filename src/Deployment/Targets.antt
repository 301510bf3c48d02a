-- ===== src/Deployment/Targets.antt =====
-- The targets that a rollback may name.
use mathlib.Core.Path.{subst}
use labrys.Base.{
  ◌≡◌, ◌≢◌, ◌↔◌, ◌⊎◌, refl, inl, inr, Bool, true, false, none, some, List, [], ◌∷◌, Text, ok, arith,
  is_some, is_ok, Option-cases, text_eq_iff, any,
}
use labrys.Deployment.Phase.{failed}
use labrys.Deployment.Lifecycle.{Deployment}
use labrys.Deployment.Rollouts.{Rollout, find_last}
use labrys.Deployment.Rollback.{
  RollbackKind, RollbackPlan, planned, plan_rollback, is_candidate, select_rollback_target,
  warnings_for,
}
use labrys.Deployment.Gate.{same_phase_iff}

-- The last member that satisfies a test: the members after it do not.
abbrev pub IsLast : {A : Type 0} → (A → Bool) → A → List A → Type 0
IsLast p a [] = ⊥
IsLast p a (x ∷ xs) = ((x ≡ a) × (p a ≡ true) × (any p xs ≡ false)) ⊎ IsLast p a xs

find_last-none :
    {A : Type 0} (p : A → Bool) (xs : List A) → find_last p xs ≡ none → any p xs ≡ false
find_last-none p [] h = refl
find_last-none p (x ∷ xs) h = ground (arith, find_last-none p xs)

find_last-IsLast :
    {A : Type 0} (p : A → Bool) (xs : List A) {a : A} → find_last p xs ≡ some a → IsLast p a xs
find_last-IsLast p [] h = absurd (cc)
find_last-IsLast p (x ∷ xs) {a} h = elim (Option-cases (find_last p xs)) [
  | inl e ↦ inl (ground (arith, find_last-none p xs))
  | inr (y, e) ↦ inr (find_last-IsLast p xs (ground arith))
]

IsLast-holds : {A : Type 0} (p : A → Bool) (a : A) (xs : List A) → IsLast p a xs → p a ≡ true
IsLast-holds p a [] h = absurd h
IsLast-holds p a (x ∷ xs) (inl h) = h.1
IsLast-holds p a (x ∷ xs) (inr h) = IsLast-holds p a xs h

-- The selected rollback target is the last deployment of the rollout that is another one than the
-- current, was built and has not failed; one that was begun after the current is selected too.
pub select_rollback_target-some :
    (r : Rollout) (current : Text) {id : Text}
    → select_rollback_target r current ≡ some id
    → (d : Deployment) × (d.id ≡ id)
      × IsLast (is_candidate current) d r.deployments
      × (id ≢ current)
      × (is_some d.image ≡ true)
      × (d.phase ≢ failed)
unfolding select_rollback_target
select_rollback_target-some r current {id} h =
    elim (Option-cases (find_last (is_candidate current) r.deployments)) [
      | inl e ↦ absurd (let h1 = rw e at h in cc)
      | inr (d, e) ↦
          let latest = find_last-IsLast (is_candidate current) r.deployments e in
          let fits = IsLast-holds (is_candidate current) d r.deployments latest in
          let named : d.id ≡ id = let h1 = rw e at h in cc in
          (
            d,
            named,
            latest,
            λ same. ground (arith, text_eq_iff d.id current),
            ground arith,
            λ down. ground (arith, same_phase_iff d.phase failed),
          )
    ]

-- The plan names both deployments, requires an approval and carries the warnings of its kind.
abbrev pub Describes : RollbackKind → Deployment → Deployment → RollbackPlan → Type 0
Describes kind from to plan =
    (plan.kind ≡ kind)
    × (plan.source_id ≡ from.id)
    × (plan.target_id ≡ to.id)
    × (plan.requires_approval ≡ true)
    × (plan.warnings ≡ warnings_for kind from.revision.introduces_migration)

plan_rollback-planned :
    (kind : RollbackKind) (from to : Deployment) {plan : RollbackPlan}
    → plan_rollback kind from to ≡ ok plan
    → planned kind from to ≡ plan
unfolding plan_rollback
plan_rollback-planned kind from to h = ground arith

-- A rollback is planned exactly between two different deployments of which the target was built;
-- the plan names both, requires an approval, and carries the warnings of its kind.
pub plan_rollback_lem :
    (kind : RollbackKind) (from to : Deployment)
    → ((is_ok (plan_rollback kind from to) ≡ true)
        ↔ ((from.id ≢ to.id) × (is_some to.image ≡ true)))
      × ((plan : RollbackPlan) → plan_rollback kind from to ≡ ok plan → Describes kind from to plan)
unfolding plan_rollback planned
plan_rollback_lem kind from to = (
  ground (arith, text_eq_iff from.id to.id),
  λ plan h.
      subst (Describes kind from to) (plan_rollback-planned kind from to h)
        (refl, refl, refl, refl, refl),
)
