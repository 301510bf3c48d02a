-- ===== src/Runtime/Limits.antt =====
-- The verdict of a health probe.
use mathlib.Core.Path.{subst}
use labrys.Base.{
  is_some, ℕ, ◌≤◌, ◌<◌, ◌≡◌, refl, ◌↔◌, true, Option, none, some, Text, arith, text_eq_iff,
  Bool-cases, inl, inr,
}
use labrys.Runtime.Config.{RuntimeProfile, development, production, healthy, RuntimeConfig}
use labrys.Runtime.Builds.{evaluate_health, judge, path_matches, no_signal}

-- The probe was answered on the configured path, where one is configured.
abbrev pub OnPath : Option Text → Option Text → Type 0
OnPath none path = Unit
OnPath (some expected) path = path ≡ some expected

-- The answers that a profile accepts.
abbrev pub Accepts : RuntimeConfig → ℕ → Option Text → RuntimeProfile → Type 0
Accepts config status path development = (200 ≤ status) × (status < 400)
Accepts config status path production =
    (200 ≤ status) × (status < 300) × OnPath config.healthcheck_path path

path_matches_iff :
    (expected path : Option Text) → (path_matches expected path ≡ true) ↔ OnPath expected path
path_matches_iff none path = (λ _. tt, λ _. refl)
path_matches_iff (some e) none = (λ h. cc, λ h. cc)
path_matches_iff (some e) (some p) = ground (arith, text_eq_iff e p)

judge_iff :
    (config : RuntimeConfig) (status : ℕ) (path : Option Text) (profile : RuntimeProfile)
    → (judge config status path profile ≡ healthy) ↔ Accepts config status path profile
judge_iff config status path development = ground arith
judge_iff config status path production =
    ground (arith, path_matches_iff config.healthcheck_path path)

no_signal-ne : (config : RuntimeConfig) → no_signal config ≡ healthy → ⊥
no_signal-ne config h = elim (Bool-cases (is_some config.healthcheck_path)) [
  | inl e ↦ cc
  | inr e ↦ cc
]

-- A probe is judged healthy exactly when it was answered with a status that the profile accepts:
-- 200 to 399 in development; 200 to 299 in production, and then on the configured path where one
-- is configured.
pub evaluate_health_iff :
    (config : RuntimeConfig) (status : Option ℕ) (path : Option Text)
    → (evaluate_health config status path ≡ healthy)
      ↔ ((code : ℕ) × (status ≡ some code) × Accepts config code path config.profile)
unfolding evaluate_health
evaluate_health_iff config none path = (λ h. absurd (no_signal-ne config h), λ w. let e = w.1 in cc)
evaluate_health_iff config (some code) path =
    let verdict = judge_iff config code path config.profile in
    (
      λ h. (code, refl, verdict.0 h),
      λ w.
          let same : w.0 ≡ code = let e = w.1 in cc in
          verdict.1 (subst (λ c. Accepts config c path config.profile) same w.2),
    )
