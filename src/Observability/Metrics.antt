-- ===== src/Observability/Metrics.antt =====
-- `HealthSnapshot` and `UsageLedger` (crates/labrys-core/src/observability.rs).
use labrys.Base.{
  ℕ, ◌+◌, ◌%◌, ◌^◌, Bool, Option, none, List, [], ◌∷◌, Text, text_eq, push, retain, if◌then◌else◌,
}
use labrys.Base.Clock.{Instant, Duration, since, longer}
use labrys.Resource.{HealthState, unknown}

pub record HealthSnapshot : Type 0 where
  pub target : Text
  pub state : HealthState
  pub observed_at : Instant
  pub ttl : Duration
  pub detail : Option Text

unfoldable pub new_snapshot : Text → HealthState → Instant → Duration → HealthSnapshot
new_snapshot target state observed_at ttl = record {
  target = target;
  state = state;
  observed_at = observed_at;
  ttl = ttl;
  detail = none;
}

unfoldable pub is_snapshot_stale : HealthSnapshot → Instant → Bool
is_snapshot_stale s now = longer (since now s.observed_at) s.ttl

unfoldable pub effective_state : HealthSnapshot → Instant → HealthState
unfolding is_snapshot_stale
effective_state s now = if is_snapshot_stale s now then unknown else s.state

pub record UsageRecord : Type 0 where
  pub application_id : Text
  pub environment_id : Text
  pub period_start : Instant
  pub period_end : Instant
  pub cpu_millicore_seconds : ℕ  -- u64
  pub memory_mb_seconds : ℕ  -- u64
  pub build_seconds : ℕ  -- u64
  pub requests : ℕ  -- u64
  pub egress_bytes : ℕ  -- u64

pub record UsageTotals : Type 0 where
  pub cpu_millicore_seconds : ℕ  -- u64
  pub memory_mb_seconds : ℕ  -- u64
  pub build_seconds : ℕ  -- u64
  pub requests : ℕ  -- u64
  pub egress_bytes : ℕ  -- u64

pub record UsageLedger : Type 0 where
  pub records : List UsageRecord

unfoldable pub record_usage : UsageRecord → UsageLedger → UsageLedger
record_usage usage ledger = record { records = push ledger.records usage }

unfoldable pub usage_of : UsageLedger → Text → List UsageRecord
usage_of ledger id = retain (λ r. text_eq r.application_id id) ledger.records

-- `+=` on u64, which wraps in a release build.
abbrev pub add_u64 : ℕ → ℕ → ℕ
add_u64 a b = (a + b) % 2 ^ 64

abbrev pub no_usage : UsageTotals
no_usage = record {
  cpu_millicore_seconds = 0;
  memory_mb_seconds = 0;
  build_seconds = 0;
  requests = 0;
  egress_bytes = 0;
}

abbrev pub add_usage : UsageTotals → UsageRecord → UsageTotals
add_usage t r = record {
  cpu_millicore_seconds = add_u64 t.cpu_millicore_seconds r.cpu_millicore_seconds;
  memory_mb_seconds = add_u64 t.memory_mb_seconds r.memory_mb_seconds;
  build_seconds = add_u64 t.build_seconds r.build_seconds;
  requests = add_u64 t.requests r.requests;
  egress_bytes = add_u64 t.egress_bytes r.egress_bytes;
}

abbrev pub add_all : UsageTotals → List UsageRecord → UsageTotals
add_all t [] = t
add_all t (r ∷ rs) = add_all (add_usage t r) rs

unfoldable pub totals : UsageLedger → Text → UsageTotals
unfolding usage_of
totals ledger id = add_all no_usage (usage_of ledger id)
