-- ===== src/Queue/Claim.antt =====
-- What a claim hands to a worker.
use labrys.Base.{
  ◌≤◌, ◌≡◌, refl, ◌≢◌, true, false, Option, none, some, Text, All, lookup, modify_at,
  lookup-modify_at_self, lookup-modify_at_ne, values, Result, ok, err, panic, arith,
}
use labrys.Base.Clock.{Instant}
use labrys.Queue.Jobs.{Job, job_key, queued}
use labrys.Queue.Operations.{JobQueue, get, is_due, earlier, candidate, claimed, claim_next}
use labrys.Queue.Shape.{HasShape, candidate-Found, candidate-least, candidate-none}

-- The contract of a claim, by what it returns.
abbrev pub ClaimSpec : Instant → JobQueue → Result (Option Text) × JobQueue → Type 0
ClaimSpec now q (ok none, q') = (q' ≡ q) × All (λ j. is_due now j ≡ true → ⊥) (values q.jobs)
ClaimSpec now q (ok (some id), q') =
    (job : Job) × (get id q ≡ some job)
    × (job.status ≡ queued)
    × (job.next_attempt_at ≤ now)
    × All (λ j. is_due now j ≡ true → earlier j job ≡ false) (values q.jobs)
    × (get id q' ≡ some (claimed now job))
    × ((other : Text) → other ≢ job_key id → lookup other q'.jobs ≡ lookup other q.jobs)
ClaimSpec now q (err _, q') = ⊥
ClaimSpec now q (panic, q') = ⊥

-- On a queue of the right shape: a claim that returns nothing changes nothing, and no job is due. A claim that returns a job found
-- it queued and due, no due job comes earlier, and it is marked as running while every other key is
-- left as it was. A claim never fails.
pub claim_next_lem :
    (now : Instant) (q : JobQueue) → HasShape q → ClaimSpec now q (claim_next now q)
unfolding claim_next get
claim_next_lem now q h = go (candidate now q) refl
  where
    go :
        (o : Option Job)
        → candidate now q ≡ o
        → ClaimSpec now q (elim o as (λ _. Result (Option Text) × JobQueue) [
          | none ↦ (ok none, q)
          | some job ↦ elim (lookup (job_key job.id) q.jobs) [
            | some _ ↦ (
              ok (some job.id),
              record q { jobs = modify_at (job_key job.id) (claimed now) q.jobs },
            )
            | none ↦ (panic, q)
          ]
        ])
    go none e = (refl, candidate-none now q e)
    go (some job) e =
        let (found, due) = candidate-Found now q job h e in
        let k = job_key job.id in
        rw found (
          job,
          found,
          ground arith,
          ground arith,
          candidate-least now q job e,
          lookup-modify_at_self k (claimed now) q.jobs found,
          λ other ne. lookup-modify_at_ne other k (claimed now) q.jobs ne,
        )
