-- ===== src/Queue/Operations.antt =====
-- `JobQueue` and its methods (crates/labrys-core/src/controller.rs). The write through `get_mut` is
-- a write at the key; a fresh identifier is an argument.
use labrys.Base.{
  ℕ, ◌+◌, ◌%◌, ◌^◌, max, ◌&&◌, ◌||◌, Bool, not, Option, none, some, List, [], ◌∷◌, map, Text,
  text_eq, length, find, all, retain, ltb, leb, ◌==◌, if◌then◌else◌, TreeMap, lookup, insert,
  modify_at, values, Result, ok, err, panic, not_found, reconciliation, Method, pure, modify, lift,
  ◌>>=◌, ◌>>◌,
}
use labrys.Base.Clock.{Instant, Duration, after}
use labrys.Retry.{RetryPolicy, delay_for}
use labrys.Resource.{redact_reason}
use labrys.Queue.Jobs.{
  JobAction, idempotency_key, JobStatus, queued, paused, running, succeeded, dead, status_eq,
  is_in_flight, Job, job_key,
}

pub data EnqueueOutcome : Type 0 where
  enqueued duplicate : Text → EnqueueOutcome

pub record JobQueue : Type 0 where
  pub jobs : TreeMap Job

unfoldable pub new : JobQueue
new = record { jobs = [] }

-- The test that `enqueue` looks for a duplicate by.
abbrev pub holds_key : Text → Job → Bool
holds_key key job = text_eq job.idempotency_key key && is_in_flight job.status

abbrev pub new_job : Text → Text → JobAction → ℕ → RetryPolicy → Instant → Job
new_job fresh target action version policy at = record {
  id = fresh;
  target = target;
  action = action;
  idempotency_key = idempotency_key target action version;
  status = queued;
  attempts = 0;
  policy = policy;
  next_attempt_at = at;
  last_error = none;
  enqueued_at = at;
  updated_at = at;
}

unfoldable pub enqueue :
    Text → Text → JobAction → ℕ → RetryPolicy → Instant → JobQueue → EnqueueOutcome × JobQueue
enqueue fresh target action version policy at q =
    elim (find (holds_key (idempotency_key target action version)) (values q.jobs)) [
      | some existing ↦ (duplicate existing.id, q)
      | none ↦ (
        enqueued fresh,
        record q {
          jobs = insert (job_key fresh) (new_job fresh target action version policy at) q.jobs;
        },
      )
    ]

unfoldable pub get : Text → JobQueue → Option Job
get id q = lookup (job_key id) q.jobs

unfoldable pub len : JobQueue → ℕ
len q = length q.jobs

-- The filter of `claim_next`, and the order of its key `(next_attempt_at, enqueued_at)`.
abbrev pub is_due : Instant → Job → Bool
is_due now job = status_eq job.status queued && leb job.next_attempt_at now

abbrev pub earlier : Job → Job → Bool
earlier a b =
    ltb a.next_attempt_at b.next_attempt_at
    || (a.next_attempt_at == b.next_attempt_at && ltb a.enqueued_at b.enqueued_at)

-- `Iterator::min_by_key`: of several least elements the first.
unfoldable pub least_from : Job → List Job → Job
least_from best [] = best
least_from best (job ∷ jobs) = least_from (if earlier job best then job else best) jobs

unfoldable pub least : List Job → Option Job
least [] = none
least (job ∷ jobs) = some (least_from job jobs)

unfoldable pub candidate : Instant → JobQueue → Option Job
candidate now q = least (retain (is_due now) (values q.jobs))

abbrev pub claimed : Instant → Job → Job
claimed now job = record job {
  status = running;
  attempts = (job.attempts + 1) % 2 ^ 32;
  updated_at = now;
}

-- The last case is the `expect` on the lookup of the candidate.
unfoldable pub claim_next : Instant → Method JobQueue (Option Text)
claim_next now q = elim (candidate now q) [
  | none ↦ (ok none, q)
  | some job ↦ elim (lookup (job_key job.id) q.jobs) [
    | some _ ↦
        (ok (some job.id), record q { jobs = modify_at (job_key job.id) (claimed now) q.jobs })
    | none ↦ (panic, q)
  ]
]

-- `self.jobs.get_mut(..).ok_or_else(..)`, with the status that the caller goes on to demand.
abbrev pub demand : JobStatus → Option Job → Result Job
demand status none = err not_found
demand status (some job) = if status_eq job.status status then ok job else err reconciliation

abbrev pub job_in : JobStatus → Text → Method JobQueue Job
job_in status id q = (demand status (lookup (job_key id) q.jobs), q)

abbrev pub write : Text → (Job → Job) → Method JobQueue (Unit {0})
write id f = modify (λ q. record q { jobs = modify_at (job_key id) f q.jobs })

unfoldable pub running_job : Text → Method JobQueue Job
running_job id = job_in running id

unfoldable pub complete : Text → Instant → Method JobQueue (Unit {0})
unfolding running_job
complete id now = do
  running_job id
  write id (λ job. record job { status = succeeded; last_error = none; updated_at = now })

abbrev pub is_exhausted : Job → Bool
is_exhausted job = leb job.policy.max_attempts job.attempts

abbrev pub failed_job : Text → Instant → Duration → Job → Job
failed_job error now delay job = record job {
  last_error = some (redact_reason error []);
  updated_at = now;
  status = if is_exhausted job then dead else queued;
  next_attempt_at = if is_exhausted job then job.next_attempt_at else after now delay;
}

unfoldable pub fail : Text → Text → Instant → Method JobQueue JobStatus
unfolding running_job
fail id error now = do
  job ← running_job id
  delay ← lift (delay_for job.policy (max job.attempts 1))
  write id (failed_job error now delay)
  pure (failed_job error now delay job).status

unfoldable pub pause : Text → Instant → Method JobQueue (Unit {0})
pause id now = do
  job_in queued id
  write id (λ job. record job { status = paused; updated_at = now })

unfoldable pub resume : Text → Instant → Method JobQueue (Unit {0})
resume id now = do
  job_in paused id
  write id (λ job. record job { status = queued; next_attempt_at = now; updated_at = now })

unfoldable pub requeue : Text → Instant → Method JobQueue (Unit {0})
requeue id now = do
  job_in dead id
  write id
      (λ job. record job { status = queued; attempts = 0; next_attempt_at = now; updated_at = now })

unfoldable pub dead_letters : JobQueue → List Text
dead_letters q = map (λ job. job.id) (retain (λ job. status_eq job.status dead) (values q.jobs))

unfoldable pub is_quiet : JobQueue → Bool
is_quiet q = all (λ job. not (is_in_flight job.status)) (values q.jobs)
