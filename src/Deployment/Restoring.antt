-- ===== src/Deployment/Restoring.antt =====
-- The traffic that a rollback moves.
use mathlib.Core.Path.{subst}
use labrys.Base.{
  ◌≡◌, ◌≢◌, refl, ap, sym, ◌∙◌, inl, inr, true, false, none, some, ◌++◌, Text, text, ok, err,
  CoreError, not_found, deployment, Method, modify, ◌>>◌, arith, Bool-cases, Option-cases, text_eq,
  text_eq_iff,
}
use labrys.Base.Clock.{Instant}
use labrys.Deployment.Phase.{DeploymentPhase, healthy, can_transition_to}
use labrys.Deployment.Lifecycle.{Deployment, latest_phase, move_to, mark_rolled_back}
use labrys.Deployment.Rollouts.{Rollout, get, on_deployment}
use labrys.Deployment.Rollback.{RollbackPlan, is_safe_target, retire, restore, move_traffic}
use labrys.Deployment.Gate.{same_phase_iff}
use labrys.Deployment.Lookup.{
  KeepsId, on_deployment-get, on_deployment-other, on_deployment-err, on_deployment-written,
  then-err, then-ok,
}

retire-KeepsId : (reason : Text) (at : Instant) → KeepsId (retire reason at)
unfolding retire mark_rolled_back move_to
retire-KeepsId reason at d = ground arith

retire-never :
    (reason : Text) (at : Instant) {e : CoreError} (d : Deployment) → (retire reason at d).0 ≢ err e
unfolding retire mark_rolled_back move_to can_transition_to latest_phase
retire-never reason at d h = ground arith

retire-phase :
    (reason : Text) (at : Instant) (d : Deployment) → (retire reason at d).1.phase ≢ healthy
unfolding retire mark_rolled_back move_to can_transition_to
retire-phase reason at d h = ground arith

abbrev pub restoring : DeploymentPhase → Instant → Method Deployment (Unit {0})
restoring target_phase at d = (ok tt, restore target_phase at d)

restoring-KeepsId : (p : DeploymentPhase) (at : Instant) → KeepsId (restoring p at)
unfolding restore
restoring-KeepsId p at d = ground arith

restoring-phase :
    (p : DeploymentPhase) (at : Instant) (d : Deployment) → (restore p at d).phase ≡ healthy
unfolding restore
restoring-phase p at d = ground (arith, same_phase_iff d.phase healthy)

abbrev pub reason_of : RollbackPlan → Text → Text
reason_of plan approver =
    text "rolled back to dep_" ++ (plan.target_id ++ (text " by " ++ approver))

module _ (plan : RollbackPlan) (approver : Text) (at : Instant) (r : Rollout) where
  -- What a rollback does to a rollout once the target is safe.
  abbrev retiring : Method Rollout (Unit {0})
  retiring = on_deployment plan.source_id (retire (reason_of plan approver) at)

  abbrev restarting : DeploymentPhase → Method Rollout (Unit {0})
  restarting p =
      on_deployment plan.target_id (restoring p at)
      >> modify (λ s. record s { current = some plan.target_id })

  move_traffic-missing :
      get plan.target_id r ≡ none → move_traffic plan approver at r ≡ (err not_found, r)
  unfolding move_traffic
  move_traffic-missing h = rw h refl

  move_traffic-unsafe :
      {d : Deployment}
      → get plan.target_id r ≡ some d
      → is_safe_target d.phase ≡ false
      → move_traffic plan approver at r ≡ (err deployment, r)
  unfolding move_traffic
  move_traffic-unsafe h low = rw h (rw low refl)

  move_traffic-safe :
      {d : Deployment}
      → get plan.target_id r ≡ some d
      → is_safe_target d.phase ≡ true
      → move_traffic plan approver at r ≡ (retiring >> restarting d.phase) r
  unfolding move_traffic
  move_traffic-safe h up = rw h (rw up refl)

  restarting-never :
      (p : DeploymentPhase) {e : CoreError} (s : Rollout) → (restarting p s).0 ≢ err e
  restarting-never p s h =
      on_deployment-err (restoring p at) plan.target_id s (λ d g. cc)
        (then-err (on_deployment plan.target_id (restoring p at))
          (modify (λ s. record s { current = some plan.target_id })) s (λ s g. cc) h)

  -- A refused move of traffic changes nothing.
  pub move_traffic-err :
      {e : CoreError}
      → (move_traffic plan approver at r).0 ≡ err e
      → (move_traffic plan approver at r).1 ≡ r
  move_traffic-err {e = x} h = elim (Option-cases (get plan.target_id r)) [
    | inl e ↦ rw (move_traffic-missing e) refl
    | inr (d, e) ↦ elim (Bool-cases (is_safe_target d.phase)) [
      | inr low ↦ rw (move_traffic-unsafe e low) refl
      | inl up ↦ absurd (
          on_deployment-err (retire (reason_of plan approver) at) plan.source_id r
            (retire-never (reason_of plan approver) at)
            (then-err retiring (restarting d.phase) r (restarting-never d.phase)
              (rw (move_traffic-safe e up) at h)))
    ]
  ]

  -- What a move of traffic has done: the target was safe and is healthy and current now.
  abbrev pub Moved : Rollout → Type 0
  Moved after =
      (after.current ≡ some plan.target_id)
      × ((d : Deployment) × (get plan.target_id r ≡ some d) × (is_safe_target d.phase ≡ true))
      × ((d : Deployment) × (get plan.target_id after ≡ some d) × (d.phase ≡ healthy))
      × ((old : Deployment)
          → plan.source_id ≢ plan.target_id
          → get plan.source_id after ≡ some old
          → old.phase ≢ healthy)

  target-there :
      {d : Deployment}
      → get plan.target_id r ≡ some d
      → (kept : Deployment) × (get plan.target_id (retiring r).1 ≡ some kept)
  target-there {d} h =
      let m = retire (reason_of plan approver) at in
      let keep = retire-KeepsId (reason_of plan approver) at in
      elim (Bool-cases (text_eq plan.target_id plan.source_id)) [
        | inl e ↦
            let same = (text_eq_iff plan.target_id plan.source_id).0 e in
            (
              (m d).1,
              subst (λ t. get t (retiring r).1 ≡ some (m d).1) (sym same)
                  (on_deployment-get m plan.source_id r keep
                    (subst (λ t. get t r ≡ some d) same h)),
            )
        | inr e ↦ (
          d,
          on_deployment-other m plan.source_id plan.target_id r keep
                (λ same. ground (arith, text_eq_iff plan.target_id plan.source_id))
              ∙ h,
        )
      ]

  -- The rollout after both writes.
  abbrev rewritten : DeploymentPhase → Rollout
  rewritten p = (on_deployment plan.target_id (restoring p at) (retiring r).1).1

  source-retired :
      (p : DeploymentPhase) {old : Deployment}
      → plan.source_id ≢ plan.target_id
      → get plan.source_id (rewritten p) ≡ some old
      → old.phase ≢ healthy
  source-retired p {old} ne got up =
      let m = retire (reason_of plan approver) at in
      let before : get plan.source_id (retiring r).1 ≡ some old =
        sym (
          on_deployment-other (restoring p at) plan.target_id plan.source_id (retiring r).1
            (restoring-KeepsId p at) ne)
        ∙ got in
      let (d, made) =
        on_deployment-written m plan.source_id r (retire-KeepsId (reason_of plan approver) at)
          before in
      retire-phase (reason_of plan approver) at d (rw made at up)

  moved :
      {d : Deployment}
      → get plan.target_id r ≡ some d
      → is_safe_target d.phase ≡ true
      → Moved (record (rewritten d.phase) { current = some plan.target_id })
  unfolding get
  moved {d} h up =
      let (kept, there) = target-there h in
      let now =
        on_deployment-get (restoring d.phase at) plan.target_id (retiring r).1
          (restoring-KeepsId d.phase at) there in
      (
        refl,
        (d, h, up),
        (restore d.phase at kept, now, restoring-phase d.phase at kept),
        λ old ne got. source-retired d.phase {old = old} ne got,
      )

  pub move_traffic-ok :
      (move_traffic plan approver at r).0 ≡ ok tt → Moved (move_traffic plan approver at r).1
  move_traffic-ok h = elim (Option-cases (get plan.target_id r)) [
    | inl e ↦ absurd (let h1 = rw (move_traffic-missing e) at h in cc)
    | inr (d, e) ↦ elim (Bool-cases (is_safe_target d.phase)) [
      | inr low ↦ absurd (let h1 = rw (move_traffic-unsafe e low) at h in cc)
      | inl up ↦
          let safe = move_traffic-safe e up in
          let first = then-ok retiring (restarting d.phase) r (rw safe at h) in
          let second =
            then-ok (on_deployment plan.target_id (restoring d.phase at))
              (modify (λ s. record s { current = some plan.target_id })) (retiring r).1
              (rw first.1 at (rw safe at h)) in
          subst Moved (sym (ap (λ x. x.1) (safe ∙ first.1 ∙ second.1))) (moved e up)
    ]
  ]
