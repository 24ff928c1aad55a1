-- ===== src/GoTime.antt =====
-- The part of Go's package time that the program uses. An instant is counted in nanoseconds from
-- 1 January of the year 1, which is a Monday; earlier instants are left out.
use wachd.Base.{ℕ, ◌+◌, ◌-◌, ◌*◌, ◌/◌, ◌%◌, ◌^◌, ◌<◌, min, leb, arith, if◌then◌else◌}
use wachd.Base.Int.{ℤ, pos, negsuc}

-- A *time.Location: what the wall clock shows at an instant (as nanoseconds from the same origin), and
-- the instant that time.Date picks for a wall-clock reading.
pub record Location : Type 0 where
  pub wall : ℕ → ℕ
  pub instant : ℕ → ℕ

pub record Time : Type 0 where
  pub nanos : ℕ
  pub location : Location

abbrev pub utc : Location
utc = record { wall = λ n. n; instant = λ n. n }

abbrev pub nanos_per_minute : ℕ
nanos_per_minute = 60 * 10 ^ 9

abbrev pub nanos_per_hour : ℕ
nanos_per_hour = 60 * nanos_per_minute

abbrev pub nanos_per_day : ℕ
nanos_per_day = 24 * nanos_per_hour

abbrev pub wall_clock : Time → ℕ
wall_clock t = t.location.wall t.nanos

-- t.Weekday(): Sunday is 0.
unfoldable pub weekday : Time → ℕ
weekday t = (wall_clock t / nanos_per_day + 1) % 7

unfoldable pub hour : Time → ℕ
hour t = wall_clock t / nanos_per_hour % 24

unfoldable pub minute : Time → ℕ
minute t = wall_clock t / nanos_per_minute % 60

-- t.Sub(u): a time.Duration is an int64, and Sub stops at its ends.
unfoldable pub sub : Time → Time → ℤ
sub t u =
    if leb u.nanos t.nanos
    then pos (min (t.nanos - u.nanos) (2 ^ 63 - 1))
    else negsuc (min (u.nanos - t.nanos) (2 ^ 63) - 1)

-- time.Date(t.Year(), t.Month(), t.Day() - days, 0, 0, 0, 0, t.Location())
unfoldable pub midnight_before : ℕ → Time → Time
midnight_before days t = record t {
  nanos = t.location.instant ((wall_clock t / nanos_per_day - days) * nanos_per_day);
}

pub weekday-lt : (t : Time) → weekday t < 7
unfolding weekday
weekday-lt t = omega arith

pub hour-lt : (t : Time) → hour t < 24
unfolding hour
hour-lt t = omega arith

pub minute-lt : (t : Time) → minute t < 60
unfolding minute
minute-lt t = omega arith
