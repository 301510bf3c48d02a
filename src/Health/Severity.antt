-- ===== src/Health/Severity.antt =====
-- The severity of health states, and what a report is made of.
use mathlib.Core.Path.{subst}
use mathlib.Core.List.{append-nil, append_assoc}
use labrys.Base.{
  ℕ, ◌≤◌, ◌≡◌, refl, ◌≢◌, ◌↔◌, ◌∙◌, Bool, true, false, ◌||◌, not, List, [], ◌∷◌, ◌++◌, map, Text,
  push, All, retain, arith, inl, inr, Bool-cases, ap,
}
use labrys.Base.Clock.{Instant}
use labrys.Resource.{HealthState, unknown, provisioning, healthy, degraded, failed, paused}
use labrys.Health.Checks.{
  state_eq, is_platform, HealthCheck, has, worst, aggregate_health, sort_checks, from_checks,
  is_healthy,
}

-- Failed > Degraded > Unknown > Provisioning > Paused > Healthy.
abbrev pub severity : HealthState → ℕ
severity healthy = 0
severity paused = 1
severity provisioning = 2
severity unknown = 3
severity degraded = 4
severity failed = 5

state_eq_refl : (s : HealthState) → state_eq s s ≡ true
state_eq_refl s = ground arith

worst_bound :
    (states : List HealthState) (s : HealthState)
    → has s states ≡ true
    → severity s ≤ severity (worst states)
worst_bound states unknown h = ground arith
worst_bound states provisioning h = ground arith
worst_bound states healthy h = ground arith
worst_bound states degraded h = ground arith
worst_bound states failed h = ground arith
worst_bound states paused h = ground arith

worst_bounds :
    (all_states states : List HealthState)
    → ((s : HealthState) → has s states ≡ true → has s all_states ≡ true)
    → All (λ s. severity s ≤ severity (worst all_states)) states
worst_bounds all_states [] sub = tt
worst_bounds all_states (s ∷ states) sub = (
  worst_bound all_states s (sub s (rw (state_eq_refl s))),
  worst_bounds all_states states (λ t h. sub t (or-right (state_eq t s) (has t states) h)),
)
  where
    or-right : (a b : Bool) → b ≡ true → (a || b) ≡ true
    or-right a b h = ground arith

worst_member :
    (s : HealthState) (states : List HealthState) → has (worst (s ∷ states)) (s ∷ states) ≡ true
worst_member unknown states = ground arith
worst_member provisioning states = ground arith
worst_member healthy states = ground arith
worst_member degraded states = ground arith
worst_member failed states = ground arith
worst_member paused states = ground arith

-- Of a check set that is not empty, the aggregate is one of the states and none is more severe; of
-- the empty set it is unknown.
pub aggregate_health_worst :
    (states : List HealthState)
    → (states ≡ [] → aggregate_health states ≡ unknown)
      × (states ≢ [] → has (aggregate_health states) states ≡ true)
      × (states ≢ [] → All (λ s. severity s ≤ severity (aggregate_health states)) states)
unfolding aggregate_health
aggregate_health_worst [] = (λ h. refl, λ h. absurd (h refl), λ h. tt)
aggregate_health_worst (s ∷ states) = (
  λ h. absurd (cc),
  λ h. worst_member s states,
  λ h. worst_bounds (s ∷ states) (s ∷ states) (λ t k. k),
)

abbrev pub platform_checks : List HealthCheck → List HealthCheck
platform_checks checks = retain is_platform checks

abbrev pub agent_names : List HealthCheck → List Text
agent_names checks = map (λ c. c.name) (retain (λ c. not (is_platform c)) checks)

sort_checks_lem :
    (checks platform : List HealthCheck) (ignored : List Text)
    → sort_checks checks platform ignored
      ≡ (platform ++ platform_checks checks, ignored ++ agent_names checks)
unfolding sort_checks
sort_checks_lem [] platform ignored = rw (append-nil platform, append-nil ignored)
sort_checks_lem (check ∷ checks) platform ignored = elim (Bool-cases (is_platform check)) [
  | inl e ↦ rw e (
      sort_checks_lem checks (push platform check) ignored
      ∙ ap (λ l. (l, ignored ++ agent_names checks))
          (append_assoc platform (check ∷ []) (platform_checks checks)))
  | inr e ↦ rw e (
      sort_checks_lem checks platform (push ignored check.name)
      ∙ ap (λ l. (platform ++ platform_checks checks, l))
          (append_assoc ignored (check.name ∷ []) (agent_names checks)))
]

-- A report holds the platform's checks in their order, names the agents' claims, and its state is
-- the aggregate of the platform's checks alone.
pub from_checks_lem :
    (checks : List HealthCheck) (at : Instant)
    → let report = from_checks checks at in
      (report.checks ≡ platform_checks checks)
      × (report.ignored_agent_claims ≡ agent_names checks)
      × (report.state ≡ aggregate_health (map (λ c. c.state) (platform_checks checks)))
unfolding from_checks
from_checks_lem checks at =
    let sorted = sort_checks_lem checks [] [] in rw sorted (refl, refl, refl)

below_healthy :
    (states : List HealthState) → All (λ s. severity s ≤ 0) states → All (λ s. s ≡ healthy) states
below_healthy [] h = tt
below_healthy (s ∷ states) h = (ground arith, below_healthy states h.1)

lacks :
    (needle : HealthState) (states : List HealthState)
    → needle ≢ healthy
    → All (λ s. s ≡ healthy) states
    → has needle states ≡ false
lacks needle [] ne h = refl
lacks needle (s ∷ states) ne h = ground (arith, lacks needle states ne h.1)

worst_healthy : (states : List HealthState) → All (λ s. s ≡ healthy) states → worst states ≡ healthy
worst_healthy states h = ground (
  arith,
  lacks failed states (λ e. cc) h,
  lacks degraded states (λ e. cc) h,
  lacks unknown states (λ e. cc) h,
  lacks provisioning states (λ e. cc) h,
  lacks paused states (λ e. cc) h,
)

state_eq_sound : (s t : HealthState) → state_eq s t ≡ true → s ≡ t
state_eq_sound s t h = ground arith

aggregate_healthy :
    (checks : List HealthCheck)
    → (state_eq (aggregate_health (map (λ c. c.state) checks)) healthy ≡ true)
      ↔ ((checks ≢ []) × All (λ s. s ≡ healthy) (map (λ c. c.state) checks))
unfolding aggregate_health
aggregate_healthy [] = (λ h. absurd (cc), λ h. absurd (h.0 refl))
aggregate_healthy (c ∷ checks) =
    let states = map (λ (x : HealthCheck). x.state) (c ∷ checks) in
    (
      λ h. (
        λ e. cc,
        below_healthy states (
            subst (λ s. All (λ t. severity t ≤ severity s) states)
              (state_eq_sound (worst states) healthy h) (worst_bounds states states (λ t k. k))),
      ),
      λ h. rw (worst_healthy states h.1),
    )

-- A report is healthy exactly when there is a platform check and every platform check is healthy.
pub is_healthy_iff :
    (checks : List HealthCheck) (at : Instant)
    → (is_healthy (from_checks checks at) ≡ true) ↔ (
        (platform_checks checks ≢ [])
        × All (λ s. s ≡ healthy) (map (λ c. c.state) (platform_checks checks)))
unfolding is_healthy
is_healthy_iff checks at =
    rw (from_checks_lem checks at).2 (aggregate_healthy (platform_checks checks))
