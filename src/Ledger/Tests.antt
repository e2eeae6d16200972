-- ===== src/Ledger/Tests.antt =====
-- Runs of the ledger on the data of internal/ledger/ledger_test.go, and the theorems at inputs.
use metery.Prelude.{
  ℕ, ◌*◌, ◌≤◌, ℤ, pos, negsuc, ◌+ℤ◌, ◌-ℤ◌, ◌*ℤ◌, true, false, Option, none, some, String, List, [],
  ◌∷◌, ◌++◌, map, ◌≡◌, refl, arith, ◌==◌, if◌then◌else◌, add64, sub64, mul64, wrap64, div_ℤ, mod_ℤ,
}
use metery.Time.{Time, day, add_date, before}
use metery.Time.Calendar.{month_start, month_of}
use metery.Duration.{Duration, IsForward}
use metery.Ledger.Types.{
  Grant, Entitlement, Period, BalanceResult, ActiveGrant, Snapshot, FetchUsage,
}
use metery.Ledger.Shift.{shift_time, IsZero}
use metery.Ledger.Periods.{step_back, step_forward, build_periods}
use metery.Ledger.Deduct.{less, deduct, add_remaining}
use metery.Ledger.Deduct.Insertion.{insertion_sort, by_insertion}
use metery.Ledger.Deduct.Credits.{credits, deduct-amounts}
use metery.Ledger.Deduct.Order.{deduct-append}
use metery.Ledger.Balance.{
  calculate_stateless_balance, calculate_balance, balance_over, add_grants, roll_over, capture, Run,
  run_period, run_periods,
}
use metery.Ledger.Balance.Stateless.{calculate_stateless_balance-offered}
use metery.Ledger.Balance.Rollover.{roll_over-surviving}
use metery.Ledger.Balance.Snapshots.{run_periods-snapshots}
use metery.Ledger.Balance.Reseed.{IsUsedUp, used_up_comes_back}
use metery.Ledger.Balance.Returns.{
  IsCurrent, calculate_balance-IsCurrent, calculate_balance_diverges,
}

-- Midnight of the n-th day after 0001-01-01.
abbrev midnight : ℕ → Time
midnight n = pos (n * day)

-- 2026-01-01, 2026-01-05, 2026-01-10, 2026-02-01, 2026-02-15, 2026-03-01.
abbrev jan1 : Time
jan1 = midnight 739_616

abbrev jan5 : Time
jan5 = midnight 739_620

abbrev jan10 : Time
jan10 = midnight 739_625

abbrev feb1 : Time
feb1 = midnight 739_647

abbrev feb15 : Time
feb15 = midnight 739_661

abbrev mar1 : Time
mar1 = midnight 739_675

-- The last day of January, a month later, is 3 March.
end_of_january : add_date (midnight 739_646) (pos 0) (pos 1) (pos 0) ≡ midnight 739_677
unfolding add_date month_start month_of
end_of_january = refl

-- 29 February 2024, a year later, is 1 March 2025.
leap_day : add_date (midnight 738_944) (pos 1) (pos 0) (pos 0) ≡ midnight 739_310
unfolding add_date month_start month_of
leap_day = refl

abbrev no_time : Duration
no_time = record {
  years = pos 0;
  months = pos 0;
  weeks = pos 0;
  days = pos 0;
  hours = pos 0;
  minutes = pos 0;
  seconds = pos 0;
  negative = false;
}

abbrev one_month : Duration
one_month = record no_time { months = pos 1 }

abbrev parse : String → Option Duration
parse text =
    if text == "P1M" then some one_month else (if text == "PT0S" then some no_time else none)

abbrev ent : Entitlement
ent = record {
  id = "ent_1";
  usage_period_duration = none;
  usage_period_anchor = none;
  created_at = jan1;
}

abbrev monthly : Entitlement
monthly = record ent { usage_period_duration = some "P1M"; usage_period_anchor = some jan1 }

abbrev g1 : Grant
g1 = record {
  id = "g1";
  amount = pos 1000;
  priority = pos 100;
  effective_at = jan1;
  expires_at = none;
  rollover_max = none;
}

abbrev g2 : Grant
g2 = record g1 { id = "g2"; amount = pos 500; priority = pos 10; effective_at = jan5 }

-- TestCalculateBalance_Stateless
stateless_run :
    (calculate_stateless_balance by_insertion jan10 (g1 ∷ g2 ∷ []) (pos 300)).balance ≡ pos 1200
unfolding calculate_stateless_balance insertion_sort less deduct add_remaining add64 sub64 wrap64
    ◌+ℤ◌ ◌-ℤ◌
stateless_run = refl

abbrev g3 : Grant
g3 = record g1 { id = "g1"; amount = pos 100; rollover_max = some (pos 50) }

abbrev usage : FetchUsage
usage from to = if before from feb1 then pos 30 else (if before from mar1 then pos 10 else pos 0)

answer : Option (BalanceResult × List Snapshot) → ℤ × ℤ
answer none = (negsuc 0, negsuc 0)
answer (some r) = (r.0.balance, r.0.usage)

-- TestCalculateBalance_WithPeriodsAndRollover
rollover_run :
    answer (calculate_balance by_insertion parse 3 feb15 monthly (g3 ∷ []) usage none)
    ≡ (pos 40, pos 10)
unfolding answer calculate_balance balance_over build_periods step_back step_forward shift_time
    add_date month_start month_of add_grants roll_over capture run_period run_periods insertion_sort
    less deduct add_remaining add64 sub64 mul64 wrap64 ◌+ℤ◌ ◌-ℤ◌ ◌*ℤ◌ div_ℤ mod_ℤ
rollover_run = refl

one_month-IsForward : IsForward one_month
one_month-IsForward = ground arith

no_time-IsZero : IsZero no_time
no_time-IsZero = record {
  no_years = refl;
  no_months = refl;
  no_weeks = refl;
  no_days = refl;
  no_hours = refl;
  no_minutes = refl;
  no_seconds = refl;
}

calculate_stateless_balance-offered_example :
    (calculate_stateless_balance by_insertion jan10 (g1 ∷ g2 ∷ []) (pos 300)).balance ≡ pos 1200
calculate_stateless_balance-offered_example =
    (calculate_stateless_balance-offered by_insertion jan10 (g1 ∷ g2 ∷ []) (pos 300) (omega arith)
      (omega arith) (omega arith)).0

abbrev whole : Grant → ActiveGrant
whole g = record { grant = g; remaining = g.amount }

deduct-amounts_example : credits (deduct (pos 300) (whole g1 ∷ whole g2 ∷ [])).1 ≡ 1200
deduct-amounts_example =
    (deduct-amounts (pos 300) (whole g1 ∷ whole g2 ∷ []) (omega arith) (omega arith)).3

deduct-append_example :
    (deduct (pos 300) (whole g2 ∷ whole g1 ∷ [])).1
    ≡ (deduct (pos 300) (whole g2 ∷ [])).1 ++ whole g1 ∷ []
deduct-append_example =
    deduct-append (pos 300) (whole g2 ∷ []) (whole g1 ∷ []) (omega arith) (omega arith)
      (omega arith)

roll_over-surviving_example : credits (roll_over feb1 (whole g3 ∷ [])) ≡ 50
roll_over-surviving_example = roll_over-surviving feb1 (whole g3 ∷ []) (omega arith)

abbrev january : Period
january = record { start = jan1; end = feb1 }

abbrev february : Period
february = record { start = feb1; end = mar1 }

abbrev fresh_run : Run
fresh_run = record { active = []; seeded = []; usage = pos 0; overage = pos 0; snapshots = [] }

run_periods-snapshots_example :
    map
      (λ s. s.as_of)
      (run_periods by_insertion feb15
        (g3 ∷ [])
        usage
        true
        (january ∷ february ∷ [])
        fresh_run).snapshots
    ≡ feb1 ∷ []
run_periods-snapshots_example =
    (run_periods-snapshots by_insertion feb15 (g3 ∷ []) usage true (january ∷ february ∷ [])
      fresh_run tt).0

abbrev heavy_usage : FetchUsage
heavy_usage from to = if before from feb1 then pos 120 else pos 10

g3-IsUsedUp : IsUsedUp feb15 g3 heavy_usage january february
g3-IsUsedUp = record {
  adjacent = refl;
  apart = refl;
  effective = refl;
  in_first = refl;
  live_first = refl;
  live_second = refl;
  live_now = refl;
  amount = omega arith;
  first_usage = omega arith;
  second_usage = omega arith;
  used_up = omega arith;
}

used_up_comes_back_example :
    (balance_over by_insertion feb15
      (g3 ∷ [])
      heavy_usage
      (some (capture feb1 []))
      (january ∷ february ∷ [])).0.balance
    ≡ pos 90
used_up_comes_back_example =
    (used_up_comes_back by_insertion feb15 g3 heavy_usage january february g3-IsUsedUp).2

calculate_balance-IsCurrent_example :
    (bound : ℕ) × (r : BalanceResult × List Snapshot) × ((fuel : ℕ)
      → bound ≤ fuel
      → calculate_balance by_insertion parse fuel feb15 monthly (g3 ∷ []) usage none ≡ some r)
    × IsCurrent feb15 r
calculate_balance-IsCurrent_example =
    calculate_balance-IsCurrent by_insertion parse feb15 monthly (g3 ∷ []) usage none "P1M"
      one_month refl refl one_month-IsForward

abbrev endless : Entitlement
endless = record monthly { usage_period_duration = some "PT0S" }

calculate_balance_diverges_example :
    calculate_balance by_insertion parse 1_000_000 feb15 endless (g3 ∷ []) usage none ≡ none
calculate_balance_diverges_example =
    calculate_balance_diverges by_insertion parse feb15 endless (g3 ∷ []) usage none "PT0S" no_time
      refl refl no_time-IsZero 1_000_000
