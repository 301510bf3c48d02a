-- ===== src/Retry/Backoff.antt =====
-- The backoff against its description without saturation, and its bounds.
use mathlib.Core.Path.{subst₂}
use native.Mathlib.Nat.{one-le-pow, pow-le-pow_right}
use native.Mathlib.Decide.{dec_le}
use labrys.Base.{ℕ, zero, suc, ◌-◌, ◌*◌, ◌^◌, ◌≤◌, ◌<◌, min, max, ◌≡◌, ◌↔◌, some, ok, panic, arith}
use labrys.Base.Clock.{Duration, seconds, whole_seconds, AtMost}
use labrys.Retry.Delay.{
  RetryPolicy, default_policy, u64_max, i64_max, seconds_max, capped, delay_for,
}

-- The seconds that the backoff would be in unbounded arithmetic.
abbrev pub ideal_seconds : RetryPolicy → ℕ → ℕ
ideal_seconds p attempt = whole_seconds p.base_delay * max p.factor 1 ^ min (attempt - 1) 31

-- `secs` of `delay_for`, over the base `s` and the power `m`.
abbrev saturated : ℕ → ℕ → ℕ
saturated s m = min (s * min (max (min m u64_max) 1) i64_max) i64_max

power_clamp : (m : ℕ) → 1 ≤ m → min (max (min m u64_max) 1) i64_max ≡ min m i64_max
power_clamp m h = omega arith

saturated_small : (s m : ℕ) → 1 ≤ m → s * m ≤ seconds_max → saturated s m ≡ s * m
saturated_small zero m h small = omega arith
saturated_small (suc s) m h small =
    let below : m ≤ i64_max = grind arith in
    let exact : min m i64_max ≡ m = omega arith in rw (power_clamp m h) (rw exact (omega arith))

saturated_large : (s m : ℕ) → 1 ≤ m → seconds_max < s * m → seconds_max < saturated s m
saturated_large zero m h large = absurd (omega arith)
saturated_large (suc s) m h large = rw (power_clamp m h) (elim (dec_le m i64_max) [
  | yes le ↦ let exact : min m i64_max ≡ m = omega arith in rw exact (omega arith)
  | no gt ↦ let exact : min m i64_max ≡ i64_max = omega arith in rw exact (omega arith)
])

power_pos : (p : RetryPolicy) (attempt : ℕ) → 1 ≤ max p.factor 1 ^ min (attempt - 1) 31
power_pos p attempt = one-le-pow (min (attempt - 1) 31) (max p.factor 1) (omega arith)

-- The backoff panics exactly when the ideal delay is above chrono's range, whatever the cap.
pub delay_for-panic :
    (p : RetryPolicy) (attempt : ℕ)
    → (delay_for p attempt ≡ panic) ↔ (seconds_max < ideal_seconds p attempt)
unfolding delay_for
delay_for-panic p attempt =
    let s = whole_seconds p.base_delay in
    let m = max p.factor 1 ^ min (attempt - 1) 31 in
    let one_le : 1 ≤ m = power_pos p attempt in
    elim (dec_le (s * m) seconds_max) [
      | yes le ↦ rw (saturated_small s m one_le le) (ground arith)
      | no gt ↦ ground (arith, saturated_large s m one_le (omega arith))
    ]

-- Where the ideal seconds are within chrono's range, the backoff returns them under the cap.
pub delay_for-ideal :
    (p : RetryPolicy) (attempt : ℕ)
    → ideal_seconds p attempt ≤ seconds_max
    → delay_for p attempt ≡ ok (capped p.max_delay (seconds (ideal_seconds p attempt)))
unfolding delay_for
delay_for-ideal p attempt h =
    let s = whole_seconds p.base_delay in
    let m = max p.factor 1 ^ min (attempt - 1) 31 in
    rw (saturated_small s m (power_pos p attempt) h) (ground arith)

-- A delay that is returned never exceeds the policy's cap.
pub delay_for-le-cap :
    (p : RetryPolicy) (attempt : ℕ) {cap d : Duration}
    → p.max_delay ≡ some cap
    → delay_for p attempt ≡ ok d
    → AtMost d cap
unfolding delay_for
delay_for-le-cap p attempt capped_by h = ground arith

ideal_mono : (p : RetryPolicy) (a b : ℕ) → a ≤ b → ideal_seconds p a ≤ ideal_seconds p b
ideal_mono p a b h =
    let powers : max p.factor 1 ^ min (a - 1) 31 ≤ max p.factor 1 ^ min (b - 1) 31 =
      pow-le-pow_right (omega arith) (omega arith) in
    grind arith

capped_mono :
    (p : RetryPolicy) (m n : ℕ)
    → m ≤ n
    → AtMost (capped p.max_delay (seconds m)) (capped p.max_delay (seconds n))
unfolding capped
capped_mono p m n h = ground arith

-- The seconds that a call computes with are those of the ideal, once it returns.
delay_for_ok :
    (p : RetryPolicy) (attempt : ℕ) {d : Duration}
    → delay_for p attempt ≡ ok d
    → capped p.max_delay (seconds (ideal_seconds p attempt)) ≡ d
delay_for_ok p attempt h = elim (dec_le (ideal_seconds p attempt) seconds_max) [
  | yes le ↦ cc (delay_for-ideal p attempt le)
  | no gt ↦ let stopped = (delay_for-panic p attempt).1 (omega arith) in absurd (cc)
]

-- Of two attempts whose backoffs return, the later never waits for less.
pub delay_for_mono :
    (p : RetryPolicy) (a b : ℕ) {d e : Duration}
    → a ≤ b
    → delay_for p a ≡ ok d
    → delay_for p b ≡ ok e
    → AtMost d e
delay_for_mono p a b le ha hb =
    let first = delay_for_ok p a ha in
    let second_one = delay_for_ok p b hb in
    subst₂ AtMost first second_one
      (capped_mono p (ideal_seconds p a) (ideal_seconds p b) (ideal_mono p a b le))

two_pow_mono : (i j : ℕ) → i ≤ j → 2 ^ i ≤ 2 ^ j
two_pow_mono i j h = pow-le-pow_right (omega arith) h

default_power : (n : ℕ) → min (5 * 2 ^ min n 31) 300 ≡ min (5 * 2 ^ n) 300
default_power n = elim (dec_le n 31) [
  | yes le ↦ let same : min n 31 ≡ n = omega arith in rw same
  | no gt ↦
      let same : min n 31 ≡ 31 = omega arith in
      let big : 2 ^ 31 ≤ 2 ^ n = two_pow_mono 31 n (omega arith) in rw same (omega arith)
]

-- Under the default policy the n-th failure waits min(5 * 2^(n - 1), 300) seconds, and no attempt
-- number panics.
pub delay_for-default :
    (attempt : ℕ)
    → delay_for default_policy attempt ≡ ok (seconds (min (5 * 2 ^ (attempt - 1)) 300))
unfolding default_policy capped
delay_for-default attempt =
    let bound : 2 ^ min (attempt - 1) 31 ≤ 2 ^ 31 =
      two_pow_mono (min (attempt - 1) 31) 31 (omega arith) in
    rw (delay_for-ideal default_policy attempt (omega arith))
      (ground (arith, default_power (attempt - 1)))
