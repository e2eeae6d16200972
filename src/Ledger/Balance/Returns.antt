-- ===== src/Ledger/Balance/Returns.antt =====
-- When `CalculateBalance` returns, and that its answer names the period that holds t.
use metery.Prelude.{ℕ, ◌≤◌, ◌≤ℤ◌, ◌<ℤ◌, Option, none, some, String, List, [], ◌∷◌, ◌≡◌, refl, arith}
use metery.Time.{Time}
use metery.Duration.{Duration, IsForward}
use metery.Ledger.Types.{Grant, Entitlement, Period, BalanceResult, Snapshot, FetchUsage}
use metery.Ledger.Shift.{IsZero}
use metery.Ledger.Deduct.{Sorter}
use metery.Ledger.Periods.{build_periods}
use metery.Ledger.Periods.Termination.{build_periods_total, build_periods_diverges}
use metery.Ledger.Periods.Cover.{Tiles, last_period, build_periods-Tiles, Tiles-last}
use metery.Ledger.Balance.{last_of, balance_over, calculate_balance, anchor_of}

-- An answer whose period holds t.
abbrev pub IsCurrent : Time → BalanceResult × List Snapshot → Type 0
IsCurrent t r = (p : Period) × (r.0.period ≡ some p) × (p.start ≤ℤ t) × (t <ℤ p.end)

last_of-last_period : (p : Period) (ps : List Period) → last_of (p ∷ ps) ≡ some (last_period p ps)
unfolding last_of
last_of-last_period p [] = refl
last_of-last_period p (q ∷ ps) = last_of-last_period q ps

module _ (sorter : Sorter) (parse : String → Option Duration) (t : Time) (ent : Entitlement)
    (grants : List Grant) (fetch_usage : FetchUsage) (seed : Option Snapshot) (text : String)
    (d : Duration) (periodic : ent.usage_period_duration ≡ some text)
    (parsed : parse text ≡ some d) where
  balance_over-IsCurrent :
      (c : Time) (ps : List Period)
      → c ≤ℤ t
      → Tiles d t c ps
      → IsCurrent t (balance_over sorter t grants fetch_usage seed ps)
  unfolding balance_over
  balance_over-IsCurrent c [] h w = absurd w
  balance_over-IsCurrent c (p ∷ ps) h w =
      let (from, to) = Tiles-last d t c p ps h w in
      (last_period p ps, last_of-last_period p ps, from, to)

  calculate_balance_lem :
      (fuel : ℕ) (c : Time) (ps : List Period)
      → Tiles d t c ps
      → build_periods d t fuel (anchor_of ent) ≡ some ps
      → calculate_balance sorter parse fuel t ent grants fetch_usage seed
        ≡ some (balance_over sorter t grants fetch_usage seed ps)
  unfolding calculate_balance
  calculate_balance_lem fuel c [] w e = absurd w
  calculate_balance_lem fuel c (p ∷ ps) w e = rw (periodic, parsed, e, calculate_balance)

  -- For an entitlement whose usage period parses to a duration with no minus sign and with
  -- fields from 0 up to 1,000,000 of which one at least is positive, and for any t, grants,
  -- usage function and seed, `CalculateBalance` returns: there are a bound and one answer that
  -- it gives on every fuel from the bound on, and the answer names a period that begins at or
  -- before t and ends after t.
  pub calculate_balance-IsCurrent :
      IsForward d
      → (bound : ℕ) × (r : BalanceResult × List Snapshot) × ((fuel : ℕ)
          → bound ≤ fuel
          → calculate_balance sorter parse fuel t ent grants fetch_usage seed ≡ some r)
        × IsCurrent t r
  calculate_balance-IsCurrent f =
      let (bound, ps, returns) = build_periods_total d t f (anchor_of ent) in
      let (c, below, _, tiles) =
        build_periods-Tiles d t bound (anchor_of ent) ps (returns bound (omega arith)) in
      (
        bound,
        balance_over sorter t grants fetch_usage seed ps,
        λ fuel h. calculate_balance_lem fuel c ps tiles (returns fuel h),
        balance_over-IsCurrent c ps below tiles,
      )

  -- For an entitlement whose usage period parses to a duration of zero in every field, and for
  -- any t, grants, usage function and seed, `CalculateBalance` does not return: no amount of
  -- fuel gives an answer.
  pub calculate_balance_diverges :
      IsZero d
      → (fuel : ℕ) → calculate_balance sorter parse fuel t ent grants fetch_usage seed ≡ none
  unfolding calculate_balance
  calculate_balance_diverges z fuel =
      rw (periodic, parsed, build_periods_diverges d t z fuel (anchor_of ent), calculate_balance)
