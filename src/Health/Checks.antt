-- ===== src/Health/Checks.antt =====
-- `CheckSource`, `HealthCheck`, `HealthReport` and `aggregate_health`
-- (crates/labrys-core/src/controller.rs).
use labrys.Base.{
  Bool, true, false, Option, none, List, [], ◌∷◌, map, Text, push, any, if◌then◌else◌,
}
use labrys.Base.Clock.{Instant}
use labrys.Resource.{HealthState, unknown, provisioning, healthy, degraded, failed, paused}

pub data CheckSource : Type 0 where
  platform_probe agent_tool : CheckSource

abbrev pub state_eq : HealthState → HealthState → Bool
state_eq unknown unknown = true
state_eq provisioning provisioning = true
state_eq healthy healthy = true
state_eq degraded degraded = true
state_eq failed failed = true
state_eq paused paused = true
state_eq _ _ = false

pub record HealthCheck : Type 0 where
  pub name : Text
  pub source : CheckSource
  pub state : HealthState
  pub detail : Option Text

unfoldable pub probe : Text → HealthState → HealthCheck
probe name state = record { name = name; source = platform_probe; state = state; detail = none }

unfoldable pub agent_claim : Text → HealthState → HealthCheck
agent_claim name state = record { name = name; source = agent_tool; state = state; detail = none }

pub record HealthReport : Type 0 where
  pub state : HealthState
  pub checks : List HealthCheck
  pub ignored_agent_claims : List Text
  pub at : Instant

-- `states.contains(&needle)`.
abbrev pub has : HealthState → List HealthState → Bool
has needle states = any (state_eq needle) states

abbrev pub worst : List HealthState → HealthState
worst states =
    if has failed states
    then failed
    else if has degraded states
    then degraded
    else if has unknown states
    then unknown
    else if has provisioning states
    then provisioning
    else if has paused states
    then paused
    else healthy

unfoldable pub aggregate_health : List HealthState → HealthState
aggregate_health [] = unknown
aggregate_health (state ∷ states) = worst (state ∷ states)

-- `check.source == CheckSource::PlatformProbe`.
abbrev pub is_platform : HealthCheck → Bool
is_platform check = elim check.source [ platform_probe ↦ true | agent_tool ↦ false ]

-- The loop of `from_checks` over the two vectors.
unfoldable pub sort_checks :
    List HealthCheck → List HealthCheck → List Text → List HealthCheck × List Text
sort_checks [] platform ignored = (platform, ignored)
sort_checks (check ∷ checks) platform ignored =
    let taken = sort_checks checks (push platform check) ignored in
    let left_out = sort_checks checks platform (push ignored check.name) in
    if is_platform check then taken else left_out

unfoldable pub from_checks : List HealthCheck → Instant → HealthReport
unfolding sort_checks aggregate_health
from_checks checks at =
    let (platform, ignored) = sort_checks checks [] [] in
    record {
      state = aggregate_health (map (λ c. c.state) platform);
      checks = platform;
      ignored_agent_claims = ignored;
      at = at;
    }

unfoldable pub is_healthy : HealthReport → Bool
is_healthy report = state_eq report.state healthy
