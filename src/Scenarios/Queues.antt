-- ===== src/Scenarios/Queues.antt =====
-- Queues with jobs in every status, and retry policies.
use labrys.Base.{
  ◌<◌, ◌≤◌, ◌≡◌, refl, ◌↔◌, none, some, List, [], ◌∷◌, text, text_eq, lookup, ok, panic, arith,
}
use labrys.Base.Clock.{seconds}
use labrys.Retry.{RetryPolicy, default_policy, delay_for, multiplier, capped, seconds_max}
use labrys.Retry.Backoff.{ideal_seconds, delay_for-ideal, delay_for-panic}
use labrys.Queue.{Job, JobQueue, new, get, update, dead, claim_next, queued, requeue}
use labrys.Queue.Shape.{HasShape, new-HasShape}
use labrys.Queue.Steps.{
  Op, enqueuing, claiming, completing, pausing, resuming, failing, run, Change, run-Change,
}
use labrys.Queue.Attempts.{Any, HasU32, IsSound, runs, new-runs-IsSound}
use labrys.Queue.Dedup.{IsUnique, in_flight, new-IsUnique, run-IsUnique, requeue_duplicates}
use labrys.Queue.Claim.{ClaimSpec, claim_next_lem}

abbrev one_try : RetryPolicy
one_try = record { max_attempts = 1; base_delay = seconds 5; factor = 2; max_delay = none }

abbrev adding : Op
adding = enqueuing (text "a1") (text "app_1") update 3 default_policy 10

abbrev adding_again : Op
adding_again = enqueuing (text "b2") (text "app_1") update 3 default_policy 20

abbrev one_job : JobQueue
one_job = run adding new

default_policy-HasU32 : HasU32 default_policy
unfolding default_policy
default_policy-HasU32 = ground arith

one_job-HasShape : HasShape one_job
one_job-HasShape = (new-runs-IsSound (adding ∷ []) (default_policy-HasU32, tt)).shape

one_job-IsUnique : IsUnique one_job
one_job-IsUnique = run-IsUnique adding new tt new-HasShape new-IsUnique

run-IsUnique_example : IsUnique (run adding_again one_job)
run-IsUnique_example = run-IsUnique adding_again one_job tt one_job-HasShape one_job-IsUnique

abbrev busy : List Op
busy =
    adding
    ∷ claiming 10
    ∷ failing (text "a1") (text "timeout") 11
    ∷ claiming 5000000020
    ∷ completing (text "a1") 5000000021
    ∷ adding_again
    ∷ pausing (text "b2") 21
    ∷ resuming (text "b2") 22
    ∷ []

new-runs-IsSound_example : IsSound (runs busy new)
new-runs-IsSound_example =
    new-runs-IsSound busy
      (default_policy-HasU32, (tt, (tt, (tt, (tt, (default_policy-HasU32, (tt, (tt, tt))))))))

run-Change_example : Change HasU32 Any one_job (run (claiming 10) one_job)
run-Change_example = run-Change HasU32 Any (claiming 10) one_job tt one_job-HasShape

claim_next_example : ClaimSpec 10 one_job (claim_next 10 one_job)
claim_next_example = claim_next_lem 10 one_job one_job-HasShape

-- A dead job, and a queued one that was enqueued for the same step later.
abbrev dead_job : Job
dead_job = record {
  id = text "a1";
  target = text "app_1";
  action = update;
  idempotency_key = text "app_1:update:v3";
  status = dead;
  attempts = 1;
  policy = one_try;
  next_attempt_at = 10;
  last_error = some (text "timeout");
  enqueued_at = 10;
  updated_at = 11;
}

abbrev queued_job : Job
queued_job = record dead_job {
  id = text "b2";
  status = queued;
  attempts = 0;
  next_attempt_at = 20;
  last_error = none;
  enqueued_at = 20;
  updated_at = 20;
}

abbrev crowded : JobQueue
crowded = record { jobs = (text "job_a1", dead_job) ∷ (text "job_b2", queued_job) ∷ [] }

crowded-get : get (text "a1") crowded ≡ some dead_job
unfolding get text_eq lookup
crowded-get = refl

crowded-in_flight : 1 ≤ in_flight dead_job.idempotency_key crowded
unfolding text_eq
crowded-in_flight = omega arith

requeue_duplicates_example : ¬ IsUnique (requeue (text "a1") 30 crowded).1
requeue_duplicates_example =
    requeue_duplicates (text "a1") 30 crowded dead_job crowded-get refl crowded-in_flight

-- A policy without a cap, and one whose delays leave chrono's range before the cap applies.
abbrev doubling : RetryPolicy
doubling = record {
  max_attempts = 9;
  base_delay = seconds 3;
  factor = 2;
  max_delay = some (seconds 60);
}

abbrev eager : RetryPolicy
eager = record {
  max_attempts = 9;
  base_delay = seconds 3;
  factor = 16;
  max_delay = some (seconds 60);
}

delay_for-ideal_example : delay_for doubling 4 ≡ ok (capped (some (seconds 60)) (seconds 24))
delay_for-ideal_example = delay_for-ideal doubling 4 (omega arith)

doubling_fourth : delay_for doubling 4 ≡ ok (seconds 24)
unfolding delay_for multiplier capped
doubling_fourth = refl

doubling_sixth : delay_for doubling 6 ≡ ok (seconds 60)
unfolding delay_for multiplier capped
doubling_sixth = refl

delay_for-panic_example : (delay_for eager 20 ≡ panic) ↔ (seconds_max < ideal_seconds eager 20)
delay_for-panic_example = delay_for-panic eager 20
