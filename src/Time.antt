-- ===== src/Time.antt =====
-- `std::time`: instants and durations as nanoseconds. An instant counts from the start of the
-- monotonic clock, whose seconds are an `i64`: a sum beyond it panics, which is `none` here.
use microwaf.Prelude.{ℕ, ◌+◌, ◌-◌, ◌*◌, ◌/◌, ◌^◌, Option, none, some, ltb, if◌then◌else◌}

abbrev pub Instant : Type 0
Instant = ℕ

abbrev pub Duration : Type 0
Duration = ℕ

abbrev pub nanos : ℕ
nanos = 1000000000

-- the first number of nanoseconds that no instant has
abbrev pub instant_limit : ℕ
instant_limit = 2 ^ 63 * nanos

-- `Duration::from_secs`
abbrev pub from_secs : ℕ → Duration
from_secs s = s * nanos

-- `Duration::as_secs`
abbrev pub as_secs : Duration → ℕ
as_secs d = d / nanos

-- `later.saturating_duration_since(earlier)`, also `later.duration_since(earlier)`
abbrev pub duration_since : Instant → Instant → Duration
duration_since later earlier = later - earlier

-- `now + duration`
abbrev pub add_duration : Instant → Duration → Option Instant
add_duration now d = if ltb (now + d) instant_limit then some (now + d) else none
