-- ===== src/Scenarios/Resources.antt =====
-- A resource that fails once and recovers.
use labrys.Base.{ℕ, ◌<◌, ◌-◌, ◌^◌, ◌≡◌, refl, true, none, List, [], ◌∷◌, text, ok, arith}
use labrys.Base.Clock.{seconds}
use labrys.Retry.{RetryPolicy, delay_for, multiplier, capped}
use labrys.Resource.{
  ResourcePhase, requested, ready, can_transition_to, platform_probe, provider_callback, Resource,
  request, next_attempt,
}
use labrys.Resource.History.{
  HasHistory, Call, observing, failing, deleting_from, deleted_at, calls, request-calls-HasHistory,
}

abbrev database : Resource
database = request (text "1") (text "postgres") 2 100

abbrev policy : RetryPolicy
policy = record { max_attempts = 3; base_delay = seconds 5; factor = 2; max_delay = none }

abbrev story : List Call
story =
    observing ResourcePhase.provisioning provider_callback none 110
    ∷ failing (text "bad password s3cret") (text "s3cret" ∷ []) policy 120
    ∷ observing ready platform_probe none 125
    ∷ observing ResourcePhase.provisioning provider_callback none 130
    ∷ observing ready platform_probe none 140
    ∷ deleting_from 150
    ∷ deleted_at 160
    ∷ []

request-calls-HasHistory_example :
    HasHistory (calls story (request (text "1") (text "postgres") 2 100))
request-calls-HasHistory_example = request-calls-HasHistory story (text "1") (text "postgres") 2 100

database-HasHistory : HasHistory database
database-HasHistory = request-calls-HasHistory [] (text "1") (text "postgres") 2 100

database-legal : can_transition_to database.phase ResourcePhase.failed ≡ true
unfolding request can_transition_to
database-legal = refl

database-room : database.generation < 2 ^ 32 - 1
unfolding request
database-room = omega arith

database-waits : delay_for policy (next_attempt database.failure) ≡ ok (seconds 5)
unfolding request next_attempt delay_for multiplier capped
database-waits = refl

abbrev at_version : ℕ → ℕ → Resource
at_version version generation = record {
  id = text "1";
  kind = text "postgres";
  desired_version = version;
  phase = requested;
  generation = generation;
  failure = none;
  transitions = [];
}
