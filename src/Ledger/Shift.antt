-- ===== src/Ledger/Shift.antt =====
-- `shiftTime` of internal/ledger/ledger.go: an instant moved by a multiple of a duration.
use metery.Prelude.{
  ℕ, ◌+◌, ◌*◌, ◌<◌, ◌≡◌, ◌∙◌, ℤ, pos, negsuc, pos_part, ◌+ℤ◌, ◌-ℤ◌, ◌<ℤ◌, ltb_ℤ, add64, sub64,
  mul64, if◌then◌else◌, arith, int_laws, ◌^◌, mul64_one, mul64_zero, Bool, mul64_sign, mul64_pos,
  mul64_minus, add64_pos, add64_minus, sub64_zero,
}
use metery.Time.{Time, add_date, second}
use metery.Time.Monotone.{add_date_forward, add_date_backward, add_date_zero}
use metery.Duration.{Duration, Small, IsForward, hour, minute}

-- The direction of a shift: `mult`, or its opposite under a minus sign.
sign_of : Duration → ℤ → ℤ
sign_of d mult = mul64 (if d.negative then negsuc 0 else pos 1) mult

unfoldable pub clock_of : Duration → ℤ
clock_of d =
    add64 (add64 (mul64 d.hours (pos hour)) (mul64 d.minutes (pos minute)))
      (mul64 d.seconds (pos second))

unfoldable pub shift_time : Time → Duration → ℤ → Time
unfolding sign_of clock_of
shift_time t d mult =
    let sign = sign_of d mult in
    let years = mul64 d.years sign in
    let months = mul64 d.months sign in
    let days = add64 (mul64 (mul64 d.weeks (pos 7)) sign) (mul64 d.days sign) in
    let total_duration = clock_of d in
    add_date t years months days
    +ℤ (if ltb_ℤ sign (pos 0) then sub64 (pos 0) total_duration else total_duration)

pub Small-pos : (z : ℤ) → Small z → z ≡ pos (pos_part z)
Small-pos z h = omega int_laws

ahead : (z : ℤ) → Small z → mul64 z (pos 1) ≡ pos (pos_part z)
ahead z h = rw (Small-pos z h) (mul64_pos (pos_part z) 1 (omega arith) ∙ omega int_laws)

back : (z : ℤ) → Small z → mul64 z (negsuc 0) ≡ pos 0 -ℤ pos (pos_part z)
back z h = rw (Small-pos z h) (mul64_minus (pos_part z) (omega arith))

pub weeks_days : (z : ℤ) → Small z → mul64 z (pos 7) ≡ pos (pos_part z * 7)
weeks_days z h = rw (Small-pos z h) (mul64_pos (pos_part z) 7 (omega arith))

module _ (d : Duration) (f : IsForward d) where
  -- The clock part of a forward duration in nanoseconds.
  unfoldable pub clock_ns : ℕ
  clock_ns = pos_part d.hours * hour + pos_part d.minutes * minute + pos_part d.seconds * second

  day_count : ℕ
  day_count = pos_part d.weeks * 7 + pos_part d.days

  pub clock_of_lem : clock_of d ≡ pos clock_ns
  unfolding clock_of clock_ns
  clock_of_lem =
      rw
        (
          Small-pos d.hours f.small_hours,
          Small-pos d.minutes f.small_minutes,
          Small-pos d.seconds f.small_seconds,
          mul64_pos (pos_part d.hours) hour (omega (arith, f.small_hours)),
          mul64_pos (pos_part d.minutes) minute (omega (arith, f.small_minutes)),
          mul64_pos (pos_part d.seconds) second (omega (arith, f.small_seconds)),
        )
        (rw (
          add64_pos (pos_part d.hours * hour) (pos_part d.minutes * minute)
              (omega (arith, f.small_hours, f.small_minutes)),
          add64_pos (pos_part d.hours * hour + pos_part d.minutes * minute)
              (pos_part d.seconds * second)
              (omega (arith, f.small_hours, f.small_minutes, f.small_seconds)),
        ))

  clock_ns-fits : clock_ns < 2 ^ 63
  unfolding clock_ns
  clock_ns-fits = omega (arith, f.small_hours, f.small_minutes, f.small_seconds)

  shift_time_ahead :
      (t : Time)
      → shift_time t d (pos 1)
        ≡ add_date t (pos (pos_part d.years)) (pos (pos_part d.months)) (pos day_count)
          +ℤ pos clock_ns
  unfolding shift_time sign_of day_count
  shift_time_ahead t = rw (
    f.plain,
    mul64_one 1 (omega arith),
    ahead d.years f.small_years,
    ahead d.months f.small_months,
    ahead d.days f.small_days,
    weeks_days d.weeks f.small_weeks,
    mul64_one (pos_part d.weeks * 7) (omega (arith, f.small_weeks)),
    add64_pos (pos_part d.weeks * 7) (pos_part d.days) (omega (arith, f.small_weeks, f.small_days)),
    clock_of_lem,
  )

  shift_time_back :
      (t : Time)
      → shift_time t d (negsuc 0)
        ≡ add_date t
            (pos 0 -ℤ pos (pos_part d.years))
            (pos 0 -ℤ pos (pos_part d.months))
            (pos 0 -ℤ pos day_count)
          -ℤ pos clock_ns
  unfolding shift_time sign_of day_count
  shift_time_back t =
      rw
        (
          f.plain,
          mul64_sign,
          back d.years f.small_years,
          back d.months f.small_months,
          back d.days f.small_days,
          weeks_days d.weeks f.small_weeks,
          mul64_minus (pos_part d.weeks * 7) (omega (arith, f.small_weeks)),
          add64_minus (pos_part d.weeks * 7) (pos_part d.days)
              (omega (arith, f.small_weeks, f.small_days)),
          clock_of_lem,
          sub64_zero clock_ns clock_ns-fits,
        )
        (omega int_laws)

  -- A shift by a forward duration is strictly later.
  pub shift_time_forward : (t : Time) → t <ℤ shift_time t d (pos 1)
  unfolding day_count clock_ns
  shift_time_forward t = rw (shift_time_ahead t) (
      omega
        (int_laws, add_date_forward t (pos_part d.years) (pos_part d.months) day_count, f.moves))

  -- And a shift back is strictly earlier.
  pub shift_time_backward : (t : Time) → shift_time t d (negsuc 0) <ℤ t
  unfolding day_count clock_ns
  shift_time_backward t = rw (shift_time_back t) (
      omega
        (int_laws, add_date_backward t (pos_part d.years) (pos_part d.months) day_count, f.moves))

-- The duration that every shift ignores, such as PT0S, or PT0.5S with its fraction cut off.
pub record IsZero (d : Duration) : Type 0 where
  pub no_years : d.years ≡ pos 0
  pub no_months : d.months ≡ pos 0
  pub no_weeks : d.weeks ≡ pos 0
  pub no_days : d.days ≡ pos 0
  pub no_hours : d.hours ≡ pos 0
  pub no_minutes : d.minutes ≡ pos 0
  pub no_seconds : d.seconds ≡ pos 0

same {ℓ} : {A : Type ℓ} (b : Bool) (x : A) → (if b then x else x) ≡ x
same b x = ground arith

minus_zero : pos 0 -ℤ pos 0 ≡ pos 0
minus_zero = omega int_laws

-- A shift by it, in either direction, goes nowhere.
pub shift_time_zero : (d : Duration) → IsZero d → (t : Time) (mult : ℤ) → shift_time t d mult ≡ t
unfolding shift_time
shift_time_zero d z t mult =
    rw
      (
        z.no_years, z.no_months, z.no_weeks, z.no_days, z.no_hours, z.no_minutes, z.no_seconds,
        mul64_zero,
      )
      (simp (mul64_zero, add64_pos 0 0 (omega arith), sub64_zero 0 (omega arith), minus_zero, same)
        (rw add_date_zero (omega int_laws)))
