-- ===== src/Retry/Delay.antt =====
-- `RetryPolicy`, its default and `delay_for` (crates/labrys-core/src/controller.rs).
use labrys.Base.{
  ℕ, ◌-◌, ◌*◌, ◌^◌, min, max, Option, none, some, Result, ok, panic, ltb, if◌then◌else◌,
}
use labrys.Base.Clock.{Duration, longer, seconds, whole_seconds}

pub record RetryPolicy : Type 0 where
  pub max_attempts : ℕ  -- u32
  pub base_delay : Duration
  pub factor : ℕ  -- u32
  pub max_delay : Option Duration

unfoldable pub default_policy : RetryPolicy
default_policy = record {
  max_attempts = 5;
  base_delay = seconds 5;
  factor = 2;
  max_delay = some (seconds 300);
}

abbrev pub u64_max : ℕ
u64_max = 18446744073709551615

abbrev pub i64_max : ℕ
i64_max = 9223372036854775807

-- The largest argument of `Duration::seconds`: i64::MAX milliseconds. Beyond it chrono panics.
abbrev pub seconds_max : ℕ
seconds_max = 9223372036854775

-- `factor.saturating_pow(exponent.min(31)).max(1)`.
unfoldable pub multiplier : RetryPolicy → ℕ → ℕ
multiplier p attempt = max (min (max p.factor 1 ^ min (attempt - 1) 31) u64_max) 1

-- `match self.max_delay { Some(cap) if delay > cap => cap, _ => delay }`.
unfoldable pub capped : Option Duration → Duration → Duration
capped none delay = delay
capped (some cap) delay = if longer delay cap then cap else delay

unfoldable pub delay_for : RetryPolicy → ℕ → Result Duration
unfolding multiplier capped
delay_for p attempt =
    let secs = min (whole_seconds p.base_delay * min (multiplier p attempt) i64_max) i64_max in
    if ltb seconds_max secs then panic else ok (capped p.max_delay (seconds secs))
