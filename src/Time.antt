-- ===== src/Time.antt =====
-- Instants and calendar arithmetic of Go's `time` package, as far as the program uses them
-- (internal/ledger/ledger.go, internal/service/grant.go, internal/worker/recurrence.go).
-- An instant is its distance in nanoseconds from 0001-01-01T00:00:00 UTC, Go's zero time. All
-- instants of the program are in UTC.
pub mod Calendar
pub mod Monotone
use metery.Prelude.{ℕ, ◌*◌, ℤ, pos, ◌+ℤ◌, ◌-ℤ◌, ◌*ℤ◌, ltb_ℤ, eqb_ℤ, div_ℤ, mod_ℤ, Bool}
use Calendar.{month_start, month_of}

abbrev pub Time : Type 0
Time = ℤ

abbrev pub second : ℕ
second = 1_000_000_000

abbrev pub day : ℕ
day = 86400 * second

-- `t.Before(u)`, `t.After(u)`, `t.Equal(u)`.
abbrev pub before : Time → Time → Bool
before t u = ltb_ℤ t u

abbrev pub after : Time → Time → Bool
after t u = ltb_ℤ u t

abbrev pub equal : Time → Time → Bool
equal t u = eqb_ℤ t u

-- `t.Truncate(time.Second)`.
unfoldable pub truncate_second : Time → Time
unfolding div_ℤ ◌*ℤ◌
truncate_second t = div_ℤ t second *ℤ pos second

-- The date that lies `months` after the month of a day, at the same day of the month, plus `days`:
-- a day past the month's end runs over into the next one, as in `time.Date`.
unfoldable pub shift_days : ℤ → ℤ → ℤ → ℤ
unfolding month_start month_of ◌+ℤ◌ ◌-ℤ◌
shift_days d months days =
    month_start (month_of d +ℤ months) +ℤ (d -ℤ month_start (month_of d)) +ℤ days

-- `t.AddDate(years, months, days)`: the clock time is kept.
unfoldable pub add_date : Time → ℤ → ℤ → ℤ → Time
unfolding shift_days div_ℤ mod_ℤ ◌+ℤ◌ ◌*ℤ◌
add_date t years months days =
    shift_days (div_ℤ t day) (years *ℤ pos 12 +ℤ months) days *ℤ pos day +ℤ pos (mod_ℤ t day)
