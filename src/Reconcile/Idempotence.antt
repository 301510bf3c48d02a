-- ===== src/Reconcile/Idempotence.antt =====
-- Passes that are run again, with the enqueues that they make.
use labrys.Base.{
  ℕ, ◌≡◌, ◌≢◌, Bool, true, Option, none, [], ◌∷◌, ◌++◌, Text, text, text_eq_refl, TreeMap, insert,
  values, find, arith, Bool-cases, Option-cases, inl, inr,
}
use labrys.Base.Clock.{Instant}
use labrys.Retry.{RetryPolicy, default_policy}
use labrys.Resource.{convergence_version}
use labrys.Queue.{
  JobAction, provision, update, rollout, verify, delete, idempotency_key, JobQueue, enqueue,
  enqueued, holds_key, new_job, job_key,
}
use labrys.Reconcile.Pass.{Reconciliation, act, no_drift}
use labrys.Reconcile.Controllers.{
  ApplicationController, application_drift, reconcile_application, ResourceController,
  reconcile_resource,
}
use labrys.Reconcile.Runtime.{
  CapabilityController, reconcile_capability, PreviewController, reconcile_preview,
  DeploymentController, reconcile_deployment,
}

find-insert {ℓ} :
    {V : Type ℓ} (p : V → Bool) (k : Text) (v : V) (m : TreeMap V)
    → p v ≡ true
    → find p (values (insert k v m)) ≢ none
unfolding insert
find-insert p k v [] h = ground arith
find-insert p k v ((j, w) ∷ m) h = ground (arith, find-insert p k v m h)

new_job-holds :
    (fresh target : Text) (action : JobAction) (version : ℕ) (policy : RetryPolicy) (at : Instant)
    → holds_key
        (idempotency_key target action version)
        (new_job fresh target action version policy at)
      ≡ true
new_job-holds fresh target action version policy at =
    ground (arith, text_eq_refl (idempotency_key target action version))

module _ (fresh target : Text) (action : JobAction) (version : ℕ) (policy : RetryPolicy)
    (at : Instant) where
  pub enqueue-free :
      (q : JobQueue)
      → find (holds_key (idempotency_key target action version)) (values q.jobs) ≡ none
      → enqueue fresh target action version policy at q ≡ (
        enqueued fresh,
        record q {
          jobs = insert (job_key fresh) (new_job fresh target action version policy at) q.jobs;
        },
      )
  unfolding enqueue
  enqueue-free q free = ground arith

  pub enqueue-held :
      (q : JobQueue)
      → find (holds_key (idempotency_key target action version)) (values q.jobs) ≢ none
      → (enqueue fresh target action version policy at q).1 ≡ q
  unfolding enqueue
  enqueue-held q held = ground arith

  -- After an enqueue a job in flight holds the key.
  pub enqueue-holds :
      (q : JobQueue)
      → find
          (holds_key (idempotency_key target action version))
          (values (enqueue fresh target action version policy at q).1.jobs)
        ≢ none
  enqueue-holds q =
      elim (Option-cases
        (find (holds_key (idempotency_key target action version)) (values q.jobs))) [
          | inl e ↦ rw (enqueue-free q e) (
              find-insert (holds_key (idempotency_key target action version)) (job_key fresh)
                (new_job fresh target action version policy at) q.jobs
                (new_job-holds fresh target action version policy at))
          | inr (job, e) ↦ let held = enqueue-held q (λ n. cc) in rw held (λ n. cc)
        ]

-- A second enqueue of the same step, with whatever identifier, policy and time, adds nothing.
pub enqueue_idem :
    (fresh fresh' target : Text) (action : JobAction) (version : ℕ) (policy policy' : RetryPolicy)
    (at at' : Instant) (q : JobQueue)
    → let q' = (enqueue fresh target action version policy at q).1 in
      (enqueue fresh' target action version policy' at' q').1 ≡ q'
enqueue_idem fresh fresh' target action version policy policy' at at' q =
    enqueue-held fresh' target action version policy' at'
      (enqueue fresh target action version policy at q).1
      (enqueue-holds fresh target action version policy at q)

idem :
    (target : Text) (action : JobAction) (version : ℕ) (fresh fresh' : Text) (now now' : Instant)
    (q : JobQueue)
    → let q' = (act fresh target action version now q).1 in
      (act fresh' target action version now' q').1 ≡ q'
idem target action version fresh fresh' now now' q =
    enqueue_idem fresh fresh' target action version default_policy default_policy now now' q

-- The passes of the five controllers.
pub data AnyController (Value : Type 0) : Type 0 where
  application : ApplicationController Value → AnyController Value
  resource : ResourceController → AnyController Value
  capability : CapabilityController → AnyController Value
  preview : PreviewController → AnyController Value
  deployment : DeploymentController → AnyController Value

module _ {Value : Type 0} (debug : Option Text → Text) where
  abbrev pub reconcile : Text → AnyController Value → Instant → JobQueue → Reconciliation × JobQueue
  reconcile fresh (application c) now q = reconcile_application fresh c now q
  reconcile fresh (resource c) now q = reconcile_resource fresh c now q
  reconcile fresh (capability c) now q = reconcile_capability fresh c now q
  reconcile fresh (preview c) now q = reconcile_preview fresh c now q
  reconcile fresh (deployment c) now q = reconcile_deployment debug fresh c now q

  -- A second pass over the same observations leaves the queue as the first left it.
  pub reconcile_idem :
      (fresh fresh' : Text) (c : AnyController Value) (now now' : Instant) (q : JobQueue)
      → let q' = (reconcile fresh c now q).1 in (reconcile fresh' c now' q').1 ≡ q'
  unfolding reconcile_application reconcile_resource reconcile_capability reconcile_preview
      reconcile_deployment
  reconcile_idem fresh fresh' (application c) now now' q =
      elim (Bool-cases (no_drift (application_drift c))) [
        | inl e ↦ rw e
        | inr e ↦ rw e (
            idem (text "app_" ++ c.application_id) update c.desired.version fresh fresh' now now' q)
      ]
  reconcile_idem fresh fresh' (resource c) now now' q =
      let target = text "res_" ++ c.resource.id in
      let version = convergence_version c.resource in
      ground (
        arith,
        idem target provision version fresh fresh' now now' q,
        idem target delete version fresh fresh' now now' q,
      )
  reconcile_idem fresh fresh' (capability c) now now' q =
      ground (arith, idem (text "res_" ++ c.resource_id) provision 1 fresh fresh' now now' q)
  reconcile_idem fresh fresh' (preview c) now now' q = ground (
    arith,
    idem (text "prv_" ++ c.preview_id) provision 1 fresh fresh' now now' q,
    idem (text "prv_" ++ c.preview_id) verify 1 fresh fresh' now now' q,
  )
  reconcile_idem fresh fresh' (deployment c) now now' q =
      ground (arith, idem c.key rollout 1 fresh fresh' now now' q)
