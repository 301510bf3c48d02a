-- ===== src/Queue/Steps.antt =====
-- The queue as a state machine, against which the operations of `JobQueue` are refined: what one
-- call may do to one job, and what it may do to the queue.
use labrys.Base.{
  ℕ, max, ◌≡◌, refl, ap, true, Option, none, some, Text, find, lookup, insert, modify_at, values,
  Result, ok, err, panic, ◌>>◌, arith, Bool-cases, inl, inr,
}
use labrys.Base.Clock.{Instant, Duration}
use labrys.Retry.{RetryPolicy, delay_for}
use labrys.Queue.Jobs.{
  JobAction, idempotency_key, JobStatus, status_eq, queued, paused, running, succeeded, dead, Job,
  job_key,
}
use labrys.Queue.Shape.{HasShape, candidate-Found}
use labrys.Queue.Operations.{
  running_job, JobQueue, EnqueueOutcome, enqueued, duplicate, demand, holds_key, new_job, enqueue,
  claim_next, complete, fail, pause, resume, requeue, get, candidate, claimed, failed_job, job_in,
  write,
}

-- A call on the queue, with its arguments.
pub data Op : Type 0 where
  enqueuing : Text → Text → JobAction → ℕ → RetryPolicy → Instant → Op
  claiming : Instant → Op
  completing pausing resuming requeuing : Text → Instant → Op
  failing : Text → Text → Instant → Op

abbrev pub run : Op → JobQueue → JobQueue
run (enqueuing fresh target action version policy at) q =
    (enqueue fresh target action version policy at q).1
run (claiming now) q = (claim_next now q).1
run (completing id now) q = (complete id now q).1
run (pausing id now) q = (pause id now q).1
run (resuming id now) q = (resume id now q).1
run (requeuing id now) q = (requeue id now q).1
run (failing id error now) q = (fail id error now q).1

-- The transitions of one job; `R` says which dead jobs may be requeued.
pub data JobStep (R : Job → Type 0) : Job → Job → Type 0 where
  claims : (now : Instant) (job : Job) → job.status ≡ queued → JobStep R job (claimed now job)
  completes :
      (now : Instant) (job : Job)
      → job.status ≡ running
      → JobStep R job (record job { status = succeeded; last_error = none; updated_at = now })
  fails :
      (error : Text) (now : Instant) (delay : Duration) (job : Job)
      → job.status ≡ running
      → delay_for job.policy (max job.attempts 1) ≡ ok delay
      → JobStep R job (failed_job error now delay job)
  pauses :
      (now : Instant) (job : Job)
      → job.status ≡ queued
      → JobStep R job (record job { status = paused; updated_at = now })
  resumes :
      (now : Instant) (job : Job)
      → job.status ≡ paused
      → JobStep R job (record job { status = queued; next_attempt_at = now; updated_at = now })
  requeues :
      (now : Instant) (job : Job)
      → job.status ≡ dead
      → R job
      → JobStep R job
          (record job { status = queued; attempts = 0; next_attempt_at = now; updated_at = now })

-- What a call needs: the policy of a job that it adds, and the dead job that it requeues.
abbrev pub Admits : (RetryPolicy → Type 0) → (Job → Type 0) → JobQueue → Op → Type 0
Admits P R q (enqueuing fresh target action version policy at) = P policy
Admits P R q (requeuing id now) = (job : Job) → get id q ≡ some job → job.status ≡ dead → R job
Admits P R q _ = Unit

-- The transitions of the queue: none, a job that no in-flight job has the key of, or a step of the
-- job at one key.
pub data Change (P : RetryPolicy → Type 0) (R : Job → Type 0) (q : JobQueue)
    : JobQueue → Type 0 where
  same : Change P R q q
  added :
      (fresh target : Text) (action : JobAction) (version : ℕ) (policy : RetryPolicy) (at : Instant)
      → P policy
      → find (holds_key (idempotency_key target action version)) (values q.jobs) ≡ none
      → Change P R q (record q {
        jobs = insert (job_key fresh) (new_job fresh target action version policy at) q.jobs;
      })
  written :
      (k : Text) (f : Job → Job) (job : Job)
      → lookup k q.jobs ≡ some job
      → ((j : Job) → (f j).id ≡ j.id)
      → JobStep R job (f job)
      → Change P R q (record q { jobs = modify_at k f q.jobs })

status_eq_sound : (s t : JobStatus) → status_eq s t ≡ true → s ≡ t
status_eq_sound s t h = ground arith

demand_ok :
    (status : JobStatus) (o : Option Job) {job : Job}
    → demand status o ≡ ok job
    → (o ≡ some job) × (job.status ≡ status)
demand_ok status none h = cc
demand_ok status (some j) {job} h = elim (Bool-cases (status_eq j.status status)) [
  | inl t ↦
      let same_job : j ≡ job = ground arith in
      (ap some same_job, rw (← same_job) (status_eq_sound j.status status t))
  | inr t ↦ absurd (ground arith)
]

module _ (P : RetryPolicy → Type 0) (R : Job → Type 0) where
  -- A call that demands a status and then writes.
  guarded-Change :
      (status : JobStatus) (id : Text) (f : Job → Job) (q : JobQueue)
      → ((j : Job) → (f j).id ≡ j.id)
      → ((job : Job) → get id q ≡ some job → job.status ≡ status → JobStep R job (f job))
      → Change P R q ((job_in status id >> write id f) q).1
  unfolding get
  guarded-Change status id f q same_id steps = go (demand status (lookup (job_key id) q.jobs)) refl
    where
      go :
          (r : Result Job)
          → demand status (lookup (job_key id) q.jobs) ≡ r
          → Change P R q
              (elim r as (λ _. Result (Unit {0}) × JobQueue) [
                | ok _ ↦ write id f q
                | err x ↦ (err x, q)
                | panic ↦ (panic, q)
              ]).1
      go (ok job) e =
          let found = demand_ok status (lookup (job_key id) q.jobs) e in
          written (job_key id) f job found.0 same_id (steps job found.0 found.1)
      go (err x) e = same
      go panic e = same

  fail-Change :
      (id error : Text) (now : Instant) (q : JobQueue) → Change P R q (fail id error now q).1
  unfolding fail
  fail-Change id error now q = go (demand running (lookup (job_key id) q.jobs)) refl
    where
      delayed : Job → Result Duration → Result JobStatus × JobQueue
      delayed job d = elim d [
        | ok delay ↦ (
          ok (failed_job error now delay job).status,
          record q { jobs = modify_at (job_key id) (failed_job error now delay) q.jobs },
        )
        | err x ↦ (err x, q)
        | panic ↦ (panic, q)
      ]

      after_delay :
          (job : Job)
          → demand running (lookup (job_key id) q.jobs) ≡ ok job
          → (d : Result Duration) → delay_for job.policy (max job.attempts 1) ≡ d
          → Change P R q (delayed job d).1
      after_delay job e (ok delay) d =
          let found = demand_ok running (lookup (job_key id) q.jobs) e in
          written (job_key id) (failed_job error now delay) job found.0 (λ _. refl)
            (fails error now delay job found.1 d)
      after_delay job e (err x) d = same
      after_delay job e panic d = same

      go :
          (r : Result Job)
          → demand running (lookup (job_key id) q.jobs) ≡ r
          → Change P R q
              (elim r as (λ _. Result JobStatus × JobQueue) [
                | ok job ↦ delayed job (delay_for job.policy (max job.attempts 1))
                | err x ↦ (err x, q)
                | panic ↦ (panic, q)
              ]).1
      go (ok job) e = after_delay job e (delay_for job.policy (max job.attempts 1)) refl
      go (err x) e = same
      go panic e = same

  -- The claim looks the candidate up under its own identifier, and finds it there.
  claim-Change : (now : Instant) (q : JobQueue) → HasShape q → Change P R q (claim_next now q).1
  unfolding claim_next
  claim-Change now q h = go (candidate now q) refl
    where
      go :
          (o : Option Job)
          → candidate now q ≡ o
          → Change P R q
              (elim o as (λ _. Result (Option Text) × JobQueue) [
                | none ↦ (ok none, q)
                | some job ↦ elim (lookup (job_key job.id) q.jobs) [
                  | some _ ↦ (
                    ok (some job.id),
                    record q { jobs = modify_at (job_key job.id) (claimed now) q.jobs },
                  )
                  | none ↦ (panic, q)
                ]
              ]).1
      go none e = same
      go (some job) e =
          let (found, due) = candidate-Found now q job h e in
          rw found (
            written (job_key job.id) (claimed now) job found (λ _. refl)
              (claims now job (ground arith)))

  enqueue-Change :
      (fresh target : Text) (action : JobAction) (version : ℕ) (policy : RetryPolicy) (at : Instant)
      (q : JobQueue)
      → P policy
      → Change P R q (enqueue fresh target action version policy at q).1
  unfolding enqueue
  enqueue-Change fresh target action version policy at q admitted =
      go (find (holds_key (idempotency_key target action version)) (values q.jobs)) refl
    where
      go :
          (o : Option Job)
          → find (holds_key (idempotency_key target action version)) (values q.jobs) ≡ o
          → Change P R q
              (elim o as (λ _. EnqueueOutcome × JobQueue) [
                | some existing ↦ (duplicate existing.id, q)
                | none ↦ (
                  enqueued fresh,
                  record q {
                    jobs =
                        insert
                          (job_key fresh)
                          (new_job fresh target action version policy at)
                          q.jobs;
                  },
                )
              ]).1
      go none e = added fresh target action version policy at admitted e
      go (some job) e = same

  -- In a queue of the right shape every call that is admitted makes, on every outcome, one of the
  -- changes: none, a job added whose key no in-flight job holds, or one step of one job.
  pub run-Change : (op : Op) (q : JobQueue) → Admits P R q op → HasShape q → Change P R q (run op q)
  unfolding complete pause resume requeue running_job
  run-Change (enqueuing fresh target action version policy at) q admitted h =
      enqueue-Change fresh target action version policy at q admitted
  run-Change (claiming now) q admitted h = claim-Change now q h
  run-Change (completing id now) q admitted h =
      guarded-Change running id _ q (λ _. refl) (λ job _ r. completes now job r)
  run-Change (pausing id now) q admitted h =
      guarded-Change queued id _ q (λ _. refl) (λ job _ r. pauses now job r)
  run-Change (resuming id now) q admitted h =
      guarded-Change paused id _ q (λ _. refl) (λ job _ r. resumes now job r)
  run-Change (requeuing id now) q admitted h =
      guarded-Change dead id _ q (λ _. refl)
        (λ job found r. requeues now job r (admitted job found r))
  run-Change (failing id error now) q admitted h = fail-Change id error now q
