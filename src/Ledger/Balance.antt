-- ===== src/Ledger/Balance.antt =====
-- `CalculateBalance` and `calculateStatelessBalance` of internal/ledger/ledger.go. The parameters
-- are what the source calls: `sort.Slice`, the duration parser and the usage query.
pub mod Stateless
pub mod Rollover
pub mod Snapshots
pub mod Reseed
pub mod Seeding
pub mod Agreement
pub mod Cached
mod Tests
pub mod Returns
use mathlib.Core.Option
use metery.Prelude.{
  ℕ, ℤ, pos, ltb_ℤ, leb_ℤ, eqb_ℤ, Bool, true, false, not, ◌&&◌, ◌||◌, Option, none, some, String,
  List, [], ◌∷◌, ◌++◌, map, any, filter, ◌==◌, if◌then◌else◌,
}
use metery.Time.{Time, before, after, equal}
use metery.Duration.{Duration}
use metery.Ledger.Types.{
  Grant, Entitlement, Period, BalanceResult, ActiveGrant, GrantState, Snapshot, FetchUsage,
}
use metery.Ledger.Periods.{build_periods}
use metery.Ledger.Deduct.{Sorter, deduct, add_remaining}

-- `expires_at == nil || expires_at.After(t)`
abbrev pub live_at : Time → Option Time → Bool
live_at t none = true
live_at t (some e) = after e t

abbrev pub activate : Grant → ActiveGrant
activate g = record { grant = g; remaining = g.amount }

module _ (sorter : Sorter) where
  -- `calculateStatelessBalance`
  unfoldable pub calculate_stateless_balance : Time → List Grant → ℤ → BalanceResult
  calculate_stateless_balance t grants usage =
      let active =
        map activate
          (filter (λ g. not (after g.effective_at t) && live_at t g.expires_at) grants) in
      let (rest, active') = deduct usage (sorter.sort active) in
      let total_balance = add_remaining (pos 0) active' in
      record {
        has_access = ltb_ℤ (pos 0) total_balance;
        balance = total_balance;
        usage = usage;
        overage = rest;
        period = none;
        last_reset = none;
      }

-- `grantMap[id]`: of two grants with one id the later is in the map.
unfoldable pub grant_map : List Grant → String → Option Grant
grant_map [] id = none
grant_map (g ∷ gs) id = elim (grant_map gs id) [
  | some h ↦ some h
  | none ↦ if g.id == id then some g else none
]

abbrev pub is_seeded : String → List String → Bool
is_seeded id ids = any (λ i. i == id) ids

-- The loop over `seed.PerGrantState`: the active grants, and the ids that count as seeded.
unfoldable pub seed_grants : List Grant → List GrantState → List ActiveGrant × List String
seed_grants grants [] = ([], [])
seed_grants grants (gs ∷ states) =
    let (active, ids) = seed_grants grants states in
    elim (grant_map grants gs.grant_id) [
      | some g ↦ (record { grant = g; remaining = gs.remaining } ∷ active, gs.grant_id ∷ ids)
      | none ↦ (active, ids)
    ]

-- The periods from the one that begins at an instant, `none` if there is none.
unfoldable pub from_period : Time → List Period → Option (List Period)
from_period as_of [] = none
from_period as_of (p ∷ ps) = if equal p.start as_of then some (p ∷ ps) else from_period as_of ps

-- The loop that adds the grants of a period.
unfoldable pub add_grants :
    Bool → Period → List Grant → List ActiveGrant × List String → List ActiveGrant × List String
add_grants first p [] s = s
add_grants first p (g ∷ gs) (active, ids) =
    let in_period = not (before g.effective_at p.start) && before g.effective_at p.end in
    let pre_first = first && before g.effective_at p.start in
    add_grants first p gs (
      if is_seeded g.id ids
      then (active, ids)
      else (if in_period || pre_first
          then (active ++ activate g ∷ [], g.id ∷ ids)
          else (active, ids)))

-- `ag.Remaining` under the cap of its grant.
abbrev pub cap_remaining : Option ℤ → ℤ → ℤ
cap_remaining none r = r
cap_remaining (some max) r = if ltb_ℤ max r then max else r

-- The grants that survive a period's end, with what survives of them.
unfoldable pub roll_over : Time → List ActiveGrant → List ActiveGrant
roll_over end [] = []
roll_over end (ag ∷ ags) =
    let rest = roll_over end ags in
    let kept = cap_remaining ag.rollover_max ag.remaining in
    if eqb_ℤ ag.remaining (pos 0)
    then rest
    else (if not (live_at end ag.expires_at)
        then rest
        else (if ltb_ℤ (pos 0) kept then record ag { remaining = kept } ∷ rest else rest))

abbrev pub state_of : ActiveGrant → GrantState
state_of ag = record { grant_id = ag.id; remaining = ag.remaining }

unfoldable pub capture : Time → List ActiveGrant → Snapshot
capture at active = record {
  as_of = at;
  balance = add_remaining (pos 0) active;
  per_grant_state = map state_of active;
}

-- The variables of the loop over the periods.
pub record Run : Type 0 where
  pub active : List ActiveGrant
  pub seeded : List String
  pub usage : ℤ
  pub overage : ℤ
  pub snapshots : List Snapshot

-- The period that the answer names: the last one.
unfoldable pub last_of : List Period → Option Period
last_of [] = none
last_of (p ∷ []) = some p
last_of (p ∷ q ∷ ps) = last_of (q ∷ ps)

module _ (sorter : Sorter) (t : Time) (grants : List Grant) (fetch_usage : FetchUsage) where
  -- One round of the loop over the periods; `first` is `i == startIdx`, `current` is `isCurrent`.
  unfoldable pub run_period : Bool → Bool → Period → Run → Run
  run_period first current p r =
      let (added, ids) = add_grants first p grants (r.active, r.seeded) in
      let sorted = sorter.sort (filter (λ ag. live_at p.start ag.expires_at) added) in
      let usage = fetch_usage p.start (if current then t else p.end) in
      let (rest, burnt) = deduct usage sorted in
      let rolled = roll_over p.end burnt in
      record {
        active = if current then burnt else rolled;
        seeded = ids;
        usage = usage;
        overage = rest;
        snapshots = if current then r.snapshots else r.snapshots ++ capture p.end rolled ∷ [];
      }

  unfoldable pub run_periods : Bool → List Period → Run → Run
  run_periods first [] r = r
  run_periods first (p ∷ []) r = run_period first true p r
  run_periods first (p ∷ q ∷ ps) r = run_periods false (q ∷ ps) (run_period first false p r)

  -- The answer after the loop.
  unfoldable pub conclude : List Period → Run → BalanceResult × List Snapshot
  conclude periods r =
      let live = filter (λ ag. live_at t ag.expires_at) r.active in
      let total_balance = add_remaining (pos 0) live in
      (
        record {
          has_access = ltb_ℤ (pos 0) total_balance;
          balance = total_balance;
          usage = r.usage;
          overage = r.overage;
          period = last_of periods;
          last_reset = Option.map (λ p. p.start) (last_of periods);
        },
        r.snapshots,
      )

  -- Where the loop starts: at the seed's period with the seed's grants, or at the first period.
  unfoldable pub start_run : Option Snapshot → List Period → List Period × Run
  start_run seed periods =
      let fresh : Run = record {
        active = [];
        seeded = [];
        usage = pos 0;
        overage = pos 0;
        snapshots = [];
      } in
      elim seed [
        | none ↦ (periods, fresh)
        | some s ↦ elim (from_period s.as_of periods) [
          | none ↦ (periods, fresh)
          | some rest ↦
              let (active, ids) = seed_grants grants s.per_grant_state in
              (rest, record fresh { active = active; seeded = ids })
        ]
      ]

  -- The part of `CalculateBalance` after `buildPeriods`.
  unfoldable pub balance_over : Option Snapshot → List Period → BalanceResult × List Snapshot
  unfolding start_run conclude
  balance_over seed periods =
      let (rest, run) = start_run seed periods in conclude periods (run_periods true rest run)

-- Where the periods are anchored.
abbrev pub anchor_of : Entitlement → Time
anchor_of ent = elim ent.usage_period_anchor [ none ↦ ent.created_at | some a ↦ a ]

-- `CalculateBalance`. The parser of durations is a parameter, `none` being its error, and `none` as
-- the answer says that `buildPeriods` has not ended within the fuel.
module _ (sorter : Sorter) (parse : String → Option Duration) (fuel : ℕ) (t : Time)
    (ent : Entitlement) (grants : List Grant) (fetch_usage : FetchUsage) where
  abbrev pub stateless : BalanceResult × List Snapshot
  stateless = (calculate_stateless_balance sorter t grants (fetch_usage ent.created_at t), [])

  unfoldable pub calculate_balance : Option Snapshot → Option (BalanceResult × List Snapshot)
  calculate_balance seed = elim ent.usage_period_duration [
    | none ↦ some stateless
    | some text ↦ elim (parse text) [
      | none ↦ some stateless
      | some dur ↦ elim (build_periods dur t fuel (anchor_of ent)) [
        | none ↦ none
        | some [] ↦ some stateless
        | some (p ∷ ps) ↦ some (balance_over sorter t grants fetch_usage seed (p ∷ ps))
      ]
    ]
  ]
