-- ===== src/Deployment/Execution.antt =====
-- Rollback plans, and their execution on the rollout and the domains.
use mathlib.Core.Path.{subst}
use labrys.Base.{
  ◌≡◌, ◌≢◌, ◌⊎◌, refl, ap, sym, ◌∙◌, inl, inr, true, false, some, List, [], ◌∷◌, Text, map, All, ok,
  err, panic, Result, CoreError, arith, Bool-cases, Option-cases, text_eq, text_eq_iff,
}
use labrys.Base.Clock.{Instant}
use labrys.Runtime.{ExplicitApproval, is_refused}
use labrys.Deployment.Artifacts.{Domain}
use labrys.Deployment.Rollouts.{Rollout}
use labrys.Deployment.Rollback.{
  deployment_rollback, touches_runtime_image, RollbackPlan, repoint, Traffic, RollbackOutcome,
  repointed, outcome, move_traffic, repoint_traffic, execute_rollback, database_data_warning,
}
use labrys.Deployment.Restoring.{Moved, move_traffic-err, move_traffic-ok}

-- The domain is not served by a deployment.
abbrev pub Leaves : Text → Domain → Type 0
Leaves id domain = domain.serving ≢ some id

repoint-Leaves :
    (from to : Text) (domain : Domain) → from ≢ to → Leaves from (repoint from to domain)
repoint-Leaves from to domain ne = elim (Option-cases domain.serving) [
  | inl e ↦ rw e (λ h. cc)
  | inr (id, e) ↦ elim (Bool-cases (text_eq id from)) [
    | inl same ↦ rw e (rw same (λ h. ne (ground arith)))
    | inr other ↦ rw e (rw other (λ h. ground (arith, text_eq_iff id from)))
  ]
]

All-Leaves :
    (from to : Text) (domains : List Domain)
    → from ≢ to
    → All (Leaves from) (map (repoint from to) domains)
All-Leaves from to [] ne = tt
All-Leaves from to (d ∷ ds) ne = (repoint-Leaves from to d ne, All-Leaves from to ds ne)

repointed-err :
    (plan : RollbackPlan) (moved : Result (Unit {0})) (t : Traffic) {e : CoreError}
    → (repointed plan moved t).0 ≡ err e
    → (moved ≡ err e) × ((repointed plan moved t).1 ≡ t)
unfolding repointed
repointed-err plan (ok _) t h = cc
repointed-err plan (err e) t h = (cc, refl)
repointed-err plan panic t h = cc

repointed-ok :
    (plan : RollbackPlan) (moved : Result (Unit {0})) (t : Traffic) {out : RollbackOutcome}
    → (repointed plan moved t).0 ≡ ok out
    → (moved ≡ ok tt)
      × (out.traffic_moved ≡ true)
      × ((repointed plan moved t).1
          ≡ record t { domains = map (repoint plan.source_id plan.target_id) t.domains })
unfolding repointed
repointed-ok plan (ok tt) t {out} h =
    let made : outcome plan true database_data_warning ≡ out = cc in
    (refl, sym (ap (λ o. o.traffic_moved) made), refl)
repointed-ok plan (err e) t h = absurd (cc)
repointed-ok plan panic t h = absurd (cc)

module _ (plan : RollbackPlan) (at : Instant) (t : Traffic) where
  abbrev pub moving : Text → Result (Unit {0}) × Rollout
  moving approver = move_traffic plan approver at t.rollout

  repoint_traffic-err :
      (approver : Text) {e : CoreError}
      → (repoint_traffic plan approver at t).0 ≡ err e
      → (repoint_traffic plan approver at t).1 ≡ t
  unfolding repoint_traffic
  repoint_traffic-err approver h =
      let (failed_move, kept) =
        repointed-err plan (moving approver).0 (record t { rollout = (moving approver).1 }) h in
      kept
      ∙ ap (λ r. record t { rollout = r }) (move_traffic-err plan approver at t.rollout failed_move)

  -- The traffic after a rollback of the running image.
  abbrev pub Repointed : Text → Traffic → Type 0
  Repointed approver after =
      Moved plan approver at t.rollout after.rollout
      × (plan.source_id ≢ plan.target_id → All (Leaves plan.source_id) after.domains)

  repoint_traffic-ok :
      (approver : Text) {out : RollbackOutcome}
      → (repoint_traffic plan approver at t).0 ≡ ok out
      → (out.traffic_moved ≡ true) × Repointed approver (repoint_traffic plan approver at t).1
  unfolding repoint_traffic
  repoint_traffic-ok approver h =
      let (done, told, written) =
        repointed-ok plan (moving approver).0 (record t { rollout = (moving approver).1 }) h in
      (
        told,
        subst (Repointed approver) (sym written) (
          move_traffic-ok plan approver at t.rollout done,
          λ ne. All-Leaves plan.source_id plan.target_id t.domains ne,
        ),
      )

execute_rollback-granted :
    (plan : RollbackPlan) (approval : ExplicitApproval) (at : Instant) (t : Traffic)
    → is_refused approval ≡ false
    → touches_runtime_image plan.kind ≡ true
    → execute_rollback plan approval at t ≡ repoint_traffic plan approval.approver at t
unfolding execute_rollback
execute_rollback-granted plan approval at t granted image = rw granted (rw image refl)

module _ (plan : RollbackPlan) (approval : ExplicitApproval) (at : Instant) (t : Traffic) where
  -- A rollback that is refused changes neither the rollout nor a domain, and neither does a rollback
  -- of the source or of the configuration.
  pub execute_rollback-unchanged :
      ((e : CoreError) × ((execute_rollback plan approval at t).0 ≡ err e))
        ⊎ (touches_runtime_image plan.kind ≡ false)
      → (execute_rollback plan approval at t).1 ≡ t
  unfolding execute_rollback
  execute_rollback-unchanged h = elim (Bool-cases (is_refused approval)) [
    | inl refused ↦ rw refused refl
    | inr granted ↦ elim (Bool-cases (touches_runtime_image plan.kind)) [
      | inr other ↦ rw granted (rw other refl)
      | inl image ↦
          let run = execute_rollback-granted plan approval at t granted image in
          elim h [
            | inl (e, bad) ↦
                ap (λ x. x.1) run
                ∙ repoint_traffic-err plan at t approval.approver (sym (ap (λ x. x.0) run) ∙ bad)
            | inr other ↦ absurd (cc)
          ]
    ]
  ]

  -- A rollback of the running image that succeeds had a granted and named approval and a safe target.
  -- The target is healthy and current afterwards. If the source is another deployment, it is not
  -- healthy any more and serves no domain.
  pub execute_rollback-ok :
      {out : RollbackOutcome}
      → plan.kind ≡ deployment_rollback
      → (execute_rollback plan approval at t).0 ≡ ok out
      → (is_refused approval ≡ false)
        × (out.traffic_moved ≡ true)
        × Repointed plan at t approval.approver (execute_rollback plan approval at t).1
  unfolding execute_rollback touches_runtime_image
  execute_rollback-ok {out} kind h = elim (Bool-cases (is_refused approval)) [
    | inl refused ↦ absurd (let h1 = rw refused at h in cc)
    | inr granted ↦
        let run = execute_rollback-granted plan approval at t granted (rw kind refl) in
        let (told, after) =
          repoint_traffic-ok plan at t approval.approver (sym (ap (λ x. x.0) run) ∙ h) in
        (
          granted,
          told,
          subst (Repointed plan at t approval.approver) (sym (ap (λ x. x.1) run)) after,
        )
  ]
