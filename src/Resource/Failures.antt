-- ===== src/Resource/Failures.antt =====
-- Failures of a resource, and the generation that scopes its idempotency keys.
use labrys.Base.{◌+◌, ◌-◌, ◌*◌, ◌^◌, ◌≤◌, ◌<◌, ◌≡◌, true, some, List, Text, ok, arith}
use labrys.Base.Clock.{Instant, Duration, after}
use labrys.Retry.{RetryPolicy, delay_for, u64_max}
use labrys.Resource.Redact.{redact_reason}
use labrys.Resource.Phase.{ResourcePhase, can_transition_to, provider_callback}
use labrys.Resource.Lifecycle.{Resource, next_attempt, fail, convergence_version}
use labrys.Resource.History.{HasHistory, observe-legal}

-- A failure that is accepted starts a new generation, counts the attempt, keeps the reason with the
-- secrets taken out, and schedules the retry by the policy.
pub fail_records :
    (reason : Text) (secrets : List Text) (policy : RetryPolicy) (at : Instant) (r : Resource)
    {delay : Duration}
    → HasHistory r
    → can_transition_to r.phase ResourcePhase.failed ≡ true
    → r.generation < 2 ^ 32 - 1
    → delay_for policy (next_attempt r.failure) ≡ ok delay
    → let (outcome, r') = fail reason secrets policy at r in
      (outcome ≡ ok tt)
      × (r'.phase ≡ ResourcePhase.failed)
      × (r'.generation ≡ r.generation + 1)
      × (r'.failure
          ≡ some (record {
            reason = redact_reason reason secrets;
            policy = policy;
            attempts = next_attempt r.failure;
            next_retry_at = after at delay;
          }))
unfolding fail
fail_records reason secrets policy at r h legal room waits =
    let clean = redact_reason reason secrets in
    let moved = observe-legal ResourcePhase.failed provider_callback (some clean) at r h legal in
    (ground (arith, moved), ground (arith, moved), ground (arith, moved), ground (arith, moved))

-- Below 1000 generations and below the saturation, the key of a convergence step tells the desired
-- version and the generation apart.
pub convergence_version-injective :
    (r s : Resource)
    → r.generation < 1000
    → s.generation < 1000
    → r.desired_version * 1000 + 1000 ≤ u64_max
    → s.desired_version * 1000 + 1000 ≤ u64_max
    → convergence_version r ≡ convergence_version s
    → (r.desired_version ≡ s.desired_version) × (r.generation ≡ s.generation)
unfolding convergence_version
convergence_version-injective r s gr gs vr vs same = omega arith

-- From the thousandth generation on, the key is also that of the next desired version.
pub convergence_version_collides :
    (r s : Resource)
    → s.desired_version ≡ r.desired_version + 1
    → r.generation ≡ s.generation + 1000
    → convergence_version r ≡ convergence_version s
unfolding convergence_version
convergence_version_collides r s next later = omega arith
