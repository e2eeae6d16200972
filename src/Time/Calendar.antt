-- ===== src/Time/Calendar.antt =====
-- The Gregorian calendar by days and months counted from January of the year 1.
-- A cycle of 400 years has 4,800 months and 146,097 days.
use metery.Prelude.{
  ℕ, zero, suc, ◌+◌, ◌-◌, ◌*◌, ◌/◌, ◌%◌, ℤ, pos, ◌+ℤ◌, ◌*ℤ◌, div_ℤ, mod_ℤ, Bool, leb, if◌then◌else◌,
}

-- The `y`-th year after the year 1 is a leap year.
is_leap : ℕ → Bool
is_leap y =
    if leb 1 ((y + 1) % 4)
    then leb 1 0
    else (if leb 1 ((y + 1) % 100) then leb 0 0 else leb ((y + 1) % 400) 0)

-- Days of a year before its `m`-th month, with January as month 0.
days_before_month : ℕ → Bool → ℕ
days_before_month m leap = (367 * m + 5) / 12 - (if leb 2 m then (if leap then 1 else 2) else 0)

-- Days of a cycle before its `r`-th month.
unfoldable pub start_in_cycle : ℕ → ℕ
unfolding is_leap days_before_month
start_in_cycle r =
    let y = r / 12 in 365 * y + y / 4 - y / 100 + y / 400 + days_before_month (r % 12) (is_leap y)

-- The day on which a month begins.
unfoldable pub month_start : ℤ → ℤ
unfolding start_in_cycle div_ℤ mod_ℤ ◌+ℤ◌ ◌*ℤ◌
month_start k = div_ℤ k 4800 *ℤ pos 146_097 +ℤ pos (start_in_cycle (mod_ℤ k 4800))

-- The year of a cycle that holds the day `d`, by centuries, spans of four years and years.
year_in_cycle : ℕ → ℕ
year_in_cycle d =
    let n = d / 36_524 in
    let c = n - n / 4 in
    let d1 = d - 36_524 * c in
    let d2 = d1 - 1461 * (d1 / 1461) in let m = d2 / 365 in 100 * c + 4 * (d1 / 1461) + (m - m / 4)

-- The last of the `n` months from `r` on that begins by the day `d`.
last_month : ℕ → ℕ → ℕ → ℕ
unfolding start_in_cycle
last_month zero r d = r
last_month (suc n) r d = last_month n (if leb (start_in_cycle (r + 1)) d then r + 1 else r) d

-- The month in which a day lies.
unfoldable pub month_of : ℤ → ℤ
unfolding year_in_cycle last_month div_ℤ mod_ℤ ◌+ℤ◌ ◌*ℤ◌
month_of d =
    let e = mod_ℤ d 146_097 in
    div_ℤ d 146_097 *ℤ pos 4800 +ℤ pos (last_month 11 (12 * year_in_cycle e) e)
