-- ===== src/Queue/Attempts.antt =====
-- The attempt budgets of jobs, and the soundness of a queue.
use mathlib.Core.Path.{subst}
use labrys.Base.{
  sym, ℕ, ◌^◌, ◌≤◌, ◌<◌, max, ◌≡◌, refl, List, [], ◌∷◌, All, arith, values, All-modify_at,
  All-insert, Entries-modify_at, Entries-insert, Sorted-modify_at, Sorted-insert,
}
use labrys.Retry.{RetryPolicy}
use labrys.Queue.Jobs.{JobStatus, queued, paused, running, succeeded, dead, Job, job_key}
use labrys.Queue.Operations.{JobQueue, new, new_job}
use labrys.Queue.Shape.{OwnKey, HasShape, new-HasShape}
use labrys.Queue.Steps.{
  Op, enqueuing, claiming, completing, pausing, resuming, requeuing, failing, run, JobStep, claims,
  completes, fails, pauses, resumes, requeues, Admits, Change, same, added, written, run-Change,
}

-- How many attempts a job in a status has made, against its budget of `limit`.
abbrev pub Budget : JobStatus → ℕ → ℕ → Type 0
Budget queued limit attempts = attempts < limit
Budget paused limit attempts = attempts < limit
Budget running limit attempts = (1 ≤ attempts) × (attempts ≤ limit)
Budget succeeded limit attempts = (1 ≤ attempts) × (attempts ≤ limit)
Budget dead limit attempts = attempts ≡ limit

-- A policy with `max_attempts` 0 still makes one attempt.
abbrev pub limit_of : Job → ℕ
limit_of job = max job.policy.max_attempts 1

pub record IsWithinBudget (job : Job) : Type 0 where
  pub u32_policy : job.policy.max_attempts < 2 ^ 32
  pub spent : Budget job.status (limit_of job) job.attempts

-- A retry policy's `max_attempts` is a u32.
abbrev pub HasU32 : RetryPolicy → Type 0
HasU32 policy = policy.max_attempts < 2 ^ 32

-- The policies that a call brings are u32.
abbrev pub FitsU32 : Op → Type 0
FitsU32 (enqueuing fresh target action version policy at) = HasU32 policy
FitsU32 _ = Unit

-- Any dead job may be requeued.
abbrev pub Any : Job → Type 0
Any job = Unit

JobStep-IsWithinBudget : {j k : Job} → JobStep Any j k → IsWithinBudget j → IsWithinBudget k
JobStep-IsWithinBudget (claims now job s) h = ground arith
JobStep-IsWithinBudget (completes now job s) h = ground arith
JobStep-IsWithinBudget (fails error now delay job s d) h = ground arith
JobStep-IsWithinBudget (pauses now job s) h = ground arith
JobStep-IsWithinBudget (resumes now job s) h = ground arith
JobStep-IsWithinBudget (requeues now job s r) h = ground arith

pub record IsSound (q : JobQueue) : Type 0 where
  pub shape : HasShape q
  pub budgets : All IsWithinBudget (values q.jobs)

pub new-IsSound : IsSound new
unfolding new
new-IsSound = record { shape = new-HasShape; budgets = tt }

Change-HasShape : (q : JobQueue) {q' : JobQueue} → Change HasU32 Any q q' → HasShape q → HasShape q'
Change-HasShape q same h = h
Change-HasShape q (added fresh target action version policy at fits free) h =
    let job = new_job fresh target action version policy at in
    record {
      in_order = Sorted-insert (job_key fresh) job q.jobs h.in_order;
      own_keys = Entries-insert OwnKey (job_key fresh) job q.jobs refl h.own_keys;
    }
Change-HasShape q (written k f job found same_id step) h = record {
  in_order = Sorted-modify_at k f q.jobs h.in_order;
  own_keys = Entries-modify_at OwnKey k f q.jobs (λ i j own. rw (same_id j) own) h.own_keys;
}

Change-budgets :
    (q : JobQueue) {q' : JobQueue}
    → Change HasU32 Any q q'
    → All IsWithinBudget (values q.jobs)
    → All IsWithinBudget (values q'.jobs)
Change-budgets q same h = h
Change-budgets q (added fresh target action version policy at fits free) h =
    All-insert IsWithinBudget (job_key fresh) (new_job fresh target action version policy at) q.jobs
      (ground arith) h
Change-budgets q (written k f job found same_id step) h =
    All-modify_at IsWithinBudget k f q.jobs
      (λ j other within.
        let same_job : job ≡ j = ground arith in
        subst (λ x. IsWithinBudget (f x)) same_job
          (JobStep-IsWithinBudget step (subst IsWithinBudget (sym same_job) within)))
      h

FitsU32-Admits : (op : Op) (q : JobQueue) → FitsU32 op → Admits HasU32 Any q op
FitsU32-Admits (enqueuing fresh target action version policy at) q fits = fits
FitsU32-Admits (requeuing id now) q fits = λ _ _ _. tt
FitsU32-Admits (claiming now) q fits = tt
FitsU32-Admits (completing id now) q fits = tt
FitsU32-Admits (pausing id now) q fits = tt
FitsU32-Admits (resuming id now) q fits = tt
FitsU32-Admits (failing id error now) q fits = tt

-- Every call keeps the queue sound: its map in order, each job under its own identifier, and each
-- job's attempts within its budget, so that the u32 counter never wraps.
pub run-IsSound : (op : Op) (q : JobQueue) → FitsU32 op → IsSound q → IsSound (run op q)
run-IsSound op q fits h =
    let change = run-Change HasU32 Any op q (FitsU32-Admits op q fits) h.shape in
    record { shape = Change-HasShape q change h.shape; budgets = Change-budgets q change h.budgets }

-- Calls one after another.
abbrev pub runs : List Op → JobQueue → JobQueue
runs [] q = q
runs (op ∷ ops) q = runs ops (run op q)

pub runs-IsSound :
    (ops : List Op) (q : JobQueue) → All FitsU32 ops → IsSound q → IsSound (runs ops q)
runs-IsSound [] q fits h = h
runs-IsSound (op ∷ ops) q fits h = runs-IsSound ops (run op q) fits.1 (run-IsSound op q fits.0 h)

-- Whatever calls a new queue has seen, if their policies are u32: its map is in order, each job is
-- under its own identifier, and each job has made fewer attempts than its budget while it waits,
-- at least one and at most the budget once it runs or has succeeded, and the whole budget when dead.
pub new-runs-IsSound : (ops : List Op) → All FitsU32 ops → IsSound (runs ops new)
new-runs-IsSound ops fits = runs-IsSound ops new fits new-IsSound
