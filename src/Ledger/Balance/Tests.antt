-- ===== src/Ledger/Balance/Tests.antt =====
-- Grants that last over two closed periods, and the third from its snapshot.
use metery.Prelude.{
  ℕ, pos, none, some, String, List, [], ◌∷◌, ◌++◌, ◌≡◌, refl, add64, sub64, wrap64, ◌-ℤ◌,
}
use metery.Ledger.Types.{Grant, Period, Snapshot, FetchUsage}
use metery.Ledger.Deduct.{less, deduct}
use metery.Ledger.Deduct.Insertion.{insertion_sort, by_insertion}
use metery.Ledger.Balance.{
  grant_map, from_period, add_grants, roll_over, capture, Run, run_period, balance_over,
}
use metery.Ledger.Balance.Cached.{IsComplete, closed, balance_over-capture}

abbrev grant_at : String → ℕ → ℕ → Grant
grant_at id priority effective = record {
  id = id;
  amount = pos 100;
  priority = pos priority;
  effective_at = pos effective;
  expires_at = none;
  rollover_max = none;
}

abbrev grants : List Grant
grants = grant_at "g1" 2 0 ∷ grant_at "g2" 1 12 ∷ []

abbrev period : ℕ → ℕ → Period
period from to = record { start = pos from; end = pos to }

abbrev usage : FetchUsage
usage from to = pos 10

abbrev two_closed : Run
two_closed =
    closed by_insertion (pos 25) grants usage (period 0 10) (period 10 20 ∷ []) (period 20 30) []

two_closed-IsComplete : IsComplete by_insertion (pos 25) grants usage two_closed
unfolding grant_map run_period add_grants roll_over deduct insertion_sort less add64 sub64 wrap64
    ◌-ℤ◌
two_closed-IsComplete = record { known = (refl, (refl, tt)); kept = record { same = λ id. refl } }

starts_third :
    from_period (pos 20) (period 0 10 ∷ period 10 20 ∷ period 20 30 ∷ []) ≡ some (period 20 30 ∷ [])
unfolding from_period
starts_third = refl

balance_over-capture_example :
    let over = balance_over by_insertion (pos 25) grants usage in
    let periods = period 0 10 ∷ period 10 20 ∷ period 20 30 ∷ [] in
    let s = capture (pos 20) two_closed.active in
    ((over none periods).0 ≡ (over (some s) periods).0)
    × ((over none periods).1 ≡ two_closed.snapshots ++ (over (some s) periods).1)
    × ((earlier : List Snapshot) × (two_closed.snapshots ≡ earlier ++ s ∷ []))
balance_over-capture_example =
    balance_over-capture by_insertion (pos 25) grants usage (period 0 10) (period 10 20 ∷ [])
      (period 20 30) [] (refl, (refl, tt)) starts_third two_closed-IsComplete
