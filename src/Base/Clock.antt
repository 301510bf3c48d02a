-- ===== src/Base/Clock.antt =====
-- Instants and durations (chrono). An instant is the number of nanoseconds since the earliest
-- representable one; a duration is a signed number of nanoseconds.
use Prim.Native.Nat.{ℕ, suc, ◌+◌, ◌-◌, ◌*◌, ◌/◌, ◌≤◌}
use mathlib.Core.Bool.{Bool}
use labrys.Base.Tests.{ltb, if◌then◌else◌}

abbrev pub Instant : Type 0
Instant = ℕ

-- `negsuc n` is -(n + 1).
pub data Duration : Type 0 where
  pos : ℕ → Duration
  negsuc : ℕ → Duration

abbrev pub pos_part : Duration → ℕ
pos_part (pos n) = n
pos_part (negsuc n) = 0

abbrev pub neg_part : Duration → ℕ
neg_part (pos n) = 0
neg_part (negsuc n) = suc n

abbrev pub longer : Duration → Duration → Bool
longer a b = ltb (pos_part b + neg_part a) (pos_part a + neg_part b)

abbrev pub AtMost : Duration → Duration → Type 0
AtMost a b = pos_part a + neg_part b ≤ pos_part b + neg_part a

abbrev pub second : ℕ
second = 1000000000

abbrev pub seconds : ℕ → Duration
seconds n = pos (n * second)

-- `d.max(Duration::zero()).num_seconds()`.
abbrev pub whole_seconds : Duration → ℕ
whole_seconds d = pos_part d / second

-- `at + d`.
abbrev pub after : Instant → Duration → Instant
after t d = t + pos_part d - neg_part d

-- `now - earlier` of two instants.
abbrev pub since : Instant → Instant → Duration
since now earlier = if ltb now earlier then negsuc (earlier - now - 1) else pos (now - earlier)
