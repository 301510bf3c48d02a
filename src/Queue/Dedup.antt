-- ===== src/Queue/Dedup.antt =====
-- Deduplication: how many in-flight jobs hold an idempotency key.
use labrys.Base.{
  ℕ, ◌+◌, ◌≤◌, ◌≡◌, Bool, true, ◌&&◌, none, some, Text, text_eq, text_eq_iff, text_eq_refl, count,
  find, find-none-count, lookup, insert, modify_at, values, bit, count-modify_at, count-insert, ok,
  arith, Bool-cases, inl, inr,
}
use labrys.Base.Clock.{Instant}
use labrys.Retry.{RetryPolicy}
use labrys.Queue.Jobs.{queued, dead, Job, job_key}
use labrys.Queue.Operations.{JobQueue, new, holds_key, new_job, get, requeue, demand}
use labrys.Queue.Shape.{HasShape}
use labrys.Queue.Steps.{
  Op, run, JobStep, claims, completes, fails, pauses, resumes, requeues, Change, same, added,
  written, Admits, run-Change,
}

-- How many jobs that may still run hold a key.
abbrev pub in_flight : Text → JobQueue → ℕ
in_flight key q = count (holds_key key) (values q.jobs)

-- No key is held by two jobs that may still run.
abbrev pub IsUnique : JobQueue → Type 0
IsUnique q = (key : Text) → in_flight key q ≤ 1

pub new-IsUnique : IsUnique new
unfolding new
new-IsUnique key = omega arith

-- A dead job may be requeued when no job in flight holds its key.
abbrev pub IsFree : JobQueue → Job → Type 0
IsFree q job = in_flight job.idempotency_key q ≡ 0

-- A step of a job adds to the count of a key only by a requeue, and then only to the job's own.
JobStep-holds :
    (q : JobQueue) (key : Text) {j k : Job}
    → IsUnique q
    → JobStep (IsFree q) j k
    → in_flight key q + bit (holds_key key k) ≤ 1 + bit (holds_key key j)
JobStep-holds q key u (claims now job s) = ground (arith, u key)
JobStep-holds q key u (completes now job s) = ground (arith, u key)
JobStep-holds q key u (fails error now delay job s d) = ground (arith, u key)
JobStep-holds q key u (pauses now job s) = ground (arith, u key)
JobStep-holds q key u (resumes now job s) = ground (arith, u key)
JobStep-holds q key u (requeues now job s free) =
    elim (Bool-cases (text_eq job.idempotency_key key)) [
      | inl e ↦
          let same_key = (text_eq_iff job.idempotency_key key).0 e in
          let none_held : in_flight key q ≡ 0 = rw (← same_key) free in ground (arith, none_held)
      | inr e ↦ ground (arith, u key)
    ]

and-left : (a b : Bool) → (a && b) ≡ true → a ≡ true
and-left a b h = ground arith

added-IsUnique :
    (q : JobQueue) (k : Text) (job : Job)
    → find (holds_key job.idempotency_key) (values q.jobs) ≡ none
    → IsUnique q
    → IsUnique (record q { jobs = insert k job q.jobs })
added-IsUnique q k job free h key =
    let fewer = count-insert (holds_key key) k job q.jobs in
    let taken = find-none-count (holds_key job.idempotency_key) (values q.jobs) free in
    elim (Bool-cases (holds_key key job)) [
      | inl holds ↦
          let same_key : job.idempotency_key ≡ key =
            (text_eq_iff job.idempotency_key key).0 (and-left _ _ holds) in
          let none_held : in_flight key q ≡ 0 = rw (← same_key) taken in
          let one : bit (holds_key key job) ≡ 1 = rw holds in omega arith
      | inr free_key ↦
          let none_new : bit (holds_key key job) ≡ 0 = rw free_key in
          let before = h key in omega arith
    ]

Change-IsUnique :
    (P : RetryPolicy → Type 0) (q : JobQueue) {q' : JobQueue}
    → Change P (IsFree q) q q'
    → IsUnique q
    → IsUnique q'
Change-IsUnique P q same h = h
Change-IsUnique P q (added fresh target action version policy at fits free) h =
    added-IsUnique q (job_key fresh) (new_job fresh target action version policy at) free h
Change-IsUnique P q (written k f job found same_id step) h = λ key.
    omega (arith, count-modify_at (holds_key key) k f q.jobs found, JobStep-holds q key h step)

-- In a queue of the right shape in which no two in-flight jobs hold one key, every call keeps it so
-- but for the requeue of a dead job whose key an in-flight job holds, which is not admitted.
pub run-IsUnique :
    (op : Op) (q : JobQueue)
    → Admits (λ _. Unit) (IsFree q) q op
    → HasShape q
    → IsUnique q
    → IsUnique (run op q)
run-IsUnique op q fits shape h =
    Change-IsUnique (λ _. Unit) q (run-Change (λ _. Unit) (IsFree q) op q fits shape) h

-- A requeue of a dead job puts its key in flight once more, whoever holds it already.
pub requeue-in_flight :
    (id : Text) (now : Instant) (q : JobQueue) (job : Job)
    → get id q ≡ some job
    → job.status ≡ dead
    → in_flight job.idempotency_key (requeue id now q).1 ≡ in_flight job.idempotency_key q + 1
unfolding requeue get
requeue-in_flight id now q job found is_dead =
    let reset : Job → Job =
      λ j. record j { status = queued; attempts = 0; next_attempt_at = now; updated_at = now } in
    let demanded : demand dead (lookup (job_key id) q.jobs) ≡ ok job = rw found (ground arith) in
    let key = job.idempotency_key in
    let before : bit (holds_key key job) ≡ 0 = ground (arith, text_eq_refl key) in
    let later : bit (holds_key key (reset job)) ≡ 1 = ground (arith, text_eq_refl key) in
    let done : requeue id now q ≡ (ok tt, record q { jobs = modify_at (job_key id) reset q.jobs }) =
      ground (arith, demanded) in
    rw done (
      omega (arith, before, later, count-modify_at (holds_key key) (job_key id) reset q.jobs found))

-- A requeue of a dead job whose key an in-flight job holds puts two jobs in flight with one key.
pub requeue_duplicates :
    (id : Text) (now : Instant) (q : JobQueue) (job : Job)
    → get id q ≡ some job
    → job.status ≡ dead
    → 1 ≤ in_flight job.idempotency_key q
    → ¬ IsUnique (requeue id now q).1
requeue_duplicates id now q job found is_dead held unique =
    omega (arith, requeue-in_flight id now q job found is_dead, unique job.idempotency_key)
