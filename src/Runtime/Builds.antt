-- ===== src/Runtime/Builds.antt =====
-- `BuildResult`, `simulate_build`, `enforce_run_usage` and `evaluate_health`
-- (crates/labrys-core/src/runtime.rs).
use labrys.Base.{
  ℕ, ◌&&◌, ◌++◌, Bool, true, false, Option, none, some, Text, text, text_eq, is_some, ltb, leb,
  Result, ok, err, limit_exceeded, if◌then◌else◌,
}
use labrys.Queue.{decimal}
use labrys.Runtime.Config.{
  canonical_name, RuntimeProfile, development, production, HealthStatus, healthy, unhealthy,
  unknown, RuntimeConfig,
}

pub data BuildStatus : Type 0 where
  succeeded failed cancelled : BuildStatus

abbrev pub is_succeeded : BuildStatus → Bool
is_succeeded succeeded = true
is_succeeded _ = false

pub record BuildResult : Type 0 where
  pub status : BuildStatus
  pub cancelled : Bool
  pub limit_enforced : Option Text
  pub recovery : Option Text
  pub detail : Text

unfoldable pub build_succeeded : Text → BuildResult
build_succeeded detail = record {
  status = succeeded;
  cancelled = false;
  limit_enforced = none;
  recovery = none;
  detail = detail;
}

unfoldable pub build_failed : Text → BuildResult
build_failed detail = record {
  status = failed;
  cancelled = false;
  limit_enforced = none;
  recovery = none;
  detail = detail;
}

unfoldable pub build_timed_out : ℕ → ℕ → BuildResult
build_timed_out timeout_secs elapsed_secs = record {
  status = BuildStatus.cancelled;
  cancelled = true;
  limit_enforced = some (text "timeout_secs=" ++ decimal timeout_secs);
  recovery = some (text "increase sandbox timeout_secs or reduce build work, then retry");
  detail =
      text "build exceeded timeout: elapsed "
      ++ (decimal elapsed_secs ++ (text "s > limit " ++ (decimal timeout_secs ++ text "s")));
}

unfoldable pub limit_cancelled : Text → Text → BuildResult
limit_cancelled limit detail = record {
  status = BuildStatus.cancelled;
  cancelled = true;
  limit_enforced = some limit;
  recovery = some (text "raise the enforced sandbox limit or reduce usage, then retry");
  detail = detail;
}

abbrev pub is_success : BuildResult → Bool
is_success build = is_succeeded build.status

unfoldable pub simulate_build : RuntimeConfig → ℕ → BuildResult
unfolding build_timed_out build_succeeded
simulate_build config elapsed_secs =
    if ltb config.limits.timeout_secs elapsed_secs
    then build_timed_out config.limits.timeout_secs elapsed_secs
    else build_succeeded (
        canonical_name config.kind
        ++ (text " build finished in "
            ++ (decimal elapsed_secs ++ (text "s on port " ++ decimal config.port))))

unfoldable pub enforce_run_usage : RuntimeConfig → ℕ → ℕ → Result (Unit {0})
enforce_run_usage config processes memory_mb =
    if ltb config.limits.max_processes processes
    then err limit_exceeded
    else if ltb config.limits.memory_mb memory_mb
    then err limit_exceeded
    else ok tt

-- `path_ok` of `evaluate_health`.
abbrev pub path_matches : Option Text → Option Text → Bool
path_matches none path = true
path_matches (some expected) none = false
path_matches (some expected) (some path) = text_eq expected path

abbrev pub or_text : Option Text → Text → Text
or_text none default = default
or_text (some t) default = t

abbrev pub no_signal : RuntimeConfig → HealthStatus
no_signal config =
    if is_some config.healthcheck_path
    then unhealthy (text "no health signal reported")
    else unknown (text "no health signal reported")

abbrev pub judge : RuntimeConfig → ℕ → Option Text → RuntimeProfile → HealthStatus
judge config status path development =
    if leb 200 status && ltb status 400
    then healthy
    else unhealthy (text "dev server answered " ++ decimal status)
judge config status path production =
    if leb 200 status && (ltb status 300 && path_matches config.healthcheck_path path)
    then healthy
    else unhealthy (
        text "production health check failed: status "
        ++ (decimal status
            ++ (text " on path "
                ++ (or_text path (text "<none>")
                    ++ (text " (expected "
                        ++ (or_text config.healthcheck_path (text "<tcp>") ++ text ")"))))))

unfoldable pub evaluate_health : RuntimeConfig → Option ℕ → Option Text → HealthStatus
evaluate_health config none path = no_signal config
evaluate_health config (some status) path = judge config status path config.profile
