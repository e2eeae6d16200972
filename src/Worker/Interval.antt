-- ===== src/Worker/Interval.antt =====
-- The interval of a plan after an instant (`shiftTime` of internal/worker/recurrence.go), without the
-- overflow of its int64 arithmetic.
use metery.Prelude.{◌+◌, ◌*◌, pos, pos_part, ◌+ℤ◌, add64_pos, ◌≡◌, refl, arith}
use metery.Time.{Time, add_date, second}
use metery.Duration.{Duration, IsForward, hour, minute}
use metery.Ledger.Shift.{Small-pos, weeks_days, clock_of, clock_ns, clock_of_lem}
use metery.Service.Rpc.{shift_time}

-- The date so many years, months and days on, a week being seven days, and the clock time on top.
abbrev pub next_after : Time → Duration → Time
next_after t d =
    add_date t (pos (pos_part d.years)) (pos (pos_part d.months))
      (pos (pos_part d.weeks * 7 + pos_part d.days))
    +ℤ pos (pos_part d.hours * hour + pos_part d.minutes * minute + pos_part d.seconds * second)

pub shift_time-next_after :
    (t : Time) (d : Duration) → IsForward d → shift_time t d ≡ next_after t d
unfolding shift_time clock_of clock_ns
shift_time-next_after t d f =
    let clock = clock_of_lem d f in
    rw
      (
        clock,
        weeks_days d.weeks f.small_weeks,
        Small-pos d.years f.small_years,
        Small-pos d.months f.small_months,
        Small-pos d.days f.small_days,
        add64_pos (pos_part d.weeks * 7) (pos_part d.days)
            (omega (arith, f.small_weeks, f.small_days)),
      )
      refl
