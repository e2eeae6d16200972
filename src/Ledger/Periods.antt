-- ===== src/Ledger/Periods.antt =====
-- `buildPeriods` of internal/ledger/ledger.go. Its two loops take fuel; none is a loop that has
-- not ended when the fuel is spent.
pub mod Termination
pub mod Cover
use metery.Prelude.{
  ℕ, zero, suc, ℤ, pos, negsuc, Bool, not, Option, none, some, List, [], ◌∷◌, if◌then◌else◌,
}
use mathlib.Core.Option
use metery.Time.{Time, after}
use metery.Duration.{Duration}
use metery.Ledger.Types.{Period}
use metery.Ledger.Shift.{shift_time}

module _ (d : Duration) (t : Time) where
  -- Back to an instant that is not after t.
  unfoldable pub step_back : ℕ → Time → Option Time
  step_back zero curr = none
  step_back (suc fuel) curr =
      let rest = step_back fuel (shift_time curr d (negsuc 0)) in
      if after curr t then rest else some curr

  -- Forward, a period at a time, to the first one that ends after t.
  unfoldable pub step_forward : ℕ → Time → Option (List Period)
  step_forward zero curr = none
  step_forward (suc fuel) curr =
      let next = shift_time curr d (pos 1) in
      let period : Period = record { start = curr; end = next } in
      let rest = Option.map (◌∷◌ period) (step_forward fuel next) in
      if not (after next t) then rest else some (period ∷ [])

  unfoldable pub build_periods : ℕ → Time → Option (List Period)
  build_periods fuel anchor = elim (step_back fuel anchor) [
    | none ↦ none
    | some curr ↦ step_forward fuel curr
  ]
