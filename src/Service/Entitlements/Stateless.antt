-- ===== src/Service/Entitlements/Stateless.antt =====
-- The steps of `GetEntitlementValue` of internal/service/entitlement.go for an entitlement with no
-- usage period.
use metery.Prelude.{
  ℕ, ◌+◌, ℤ, pos, true, Option, none, some, String, List, [], length, filter, ◌==◌, ◌≡◌, refl, ap,
  ◌∙◌,
}
use metery.Time.{Time, truncate_second}
use metery.Ledger.Types.{Entitlement, BalanceResult, Snapshot, FetchUsage, Grant}
use metery.Ledger.Deduct.{Sorter}
use metery.Ledger.Balance.{calculate_stateless_balance, calculate_balance}
use metery.Store.Rows.{Customer, Meter, EntitlementRow}
use metery.Store.Db.{
  Env, World, Result, ok, err, StoreError, Action, ◌>>=◌, ◌>>◌, pure, or_fail, now_second,
}
use metery.Store.Entitlements.{list_active_grants}
use metery.Store.Usage.{in_window, fetch_usage}
use metery.Store.Snapshots.{get_latest_snapshot, save_snapshots}
use metery.Service.Rpc.{Codec, RpcError, hangs, or_internal, or_nil, get_or}
use metery.Service.Entitlements.{
  usage_reader, usage_or_zero, domain_ent, entitlement_value, metered_value,
}

-- An action in two parts of which the first returns.
pub bind_returns :
    {E A B : Type 0} (m : Action E A) (f : A → Action E B) (w w' : World) (a : A)
    → m w ≡ (ok a, w')
    → (m >>= f) w ≡ f a w'
bind_returns m f w w' a e = ap (λ s. ((λ (x : World). s) >>= f) w) e

-- A call whose error is dropped returns.
or_nil_returns :
    {E A : Type 0} (m : Action StoreError A) (w : World)
    → (o : Option A) × (w' : World) × (or_nil {E = E} m w ≡ (ok o, w'))
or_nil_returns {E} {A} m w = through (m w)
  where
    through :
        (s : Result StoreError A × World)
        → (o : Option A) × (w' : World) × (or_nil {E = E} (λ (x : World). s) w ≡ (ok o, w'))
    through (ok a, w') = (some a, w', refl)
    through (err e, w') = (none, w', refl)

calculate_balance-none :
    (sorter : Sorter) {M : Type 0} (codec : Codec M) (fuel : ℕ) (t : Time) (ent : Entitlement)
    (grants : List Grant) (usage : FetchUsage) (seed : Option Snapshot)
    → ent.usage_period_duration ≡ none
    → calculate_balance sorter codec.parse_duration fuel t ent grants usage seed
      ≡ some (calculate_stateless_balance sorter t grants (usage ent.created_at t), [])
unfolding calculate_balance
calculate_balance-none sorter codec fuel t ent grants usage seed n = rw (n, calculate_balance) refl

fetch_usage-count :
    (env : Env) (key : String) (m : Meter) (from to : Time) (w : World)
    → (m.aggregation == "count") ≡ true
    → fetch_usage env key m from to w
      ≡ (ok (pos (length (filter (in_window key m.event_type from to) w.db.events))), w)
unfolding fetch_usage
fetch_usage-count env key m from to w counts = rw counts refl

module _ (sorter : Sorter) {M : Type 0} (codec : Codec M) (fuel : ℕ) (env : Env) where
  module _ (c : Customer) (m : Meter) (e : EntitlementRow) (at : Option Time) (cost : Option ℤ)
      (w : World) where
    abbrev pub eval_time : Time
    eval_time = get_or at (truncate_second (env.clock w.reads))

    abbrev pub used : ℕ
    used = length (filter (in_window c.key m.event_type e.created_at eval_time) w.db.events)

    -- The value is what the computation without periods makes of the active grants and the events
    -- since the entitlement's creation.
    pub metered_value-stateless :
        (grants : List Grant)
        → (m.aggregation == "count") ≡ true
        → e.usage_period_duration ≡ none
        → list_active_grants e.id w ≡ (ok grants, w)
        → (metered_value sorter codec fuel env c m e at cost w).0
          ≡ ok (
              entitlement_value cost
                (calculate_stateless_balance sorter eval_time grants (pos used)))
    unfolding metered_value now_second usage_reader save_snapshots
    metered_value-stateless grants counts n listed =
        let t = eval_time in
        let w1 : World = record w { reads = w.reads + 1 } in
        let usage : FetchUsage =
          λ from to. let (r, _) = fetch_usage env c.key m from to w1 in usage_or_zero r in
        let finish = λ (answer : BalanceResult × List Snapshot).
          or_nil {E = RpcError} (save_snapshots env answer.1 e.id)
          >> pure (entitlement_value cost answer.0) in
        let balance = λ (seed : Option Snapshot).
          calculate_balance sorter codec.parse_duration fuel t (domain_ent e) grants usage seed in
        let with_seed = λ (seed : Option (Option Snapshot)).
          or_fail (balance (get_or seed none)) hangs >>= finish in
        let with_grants = λ (gs : List Grant). now_second {E = RpcError} env >>= λ default_at.
        usage_reader env c m >>= λ u.
        or_nil (get_latest_snapshot env e.id (get_or at default_at)) >>= λ seed.
        or_fail
          (calculate_balance sorter codec.parse_duration fuel (get_or at default_at) (domain_ent e)
            gs u (get_or seed none))
          hangs
        >>= finish in
        let first : metered_value sorter codec fuel env c m e at cost w ≡ with_grants grants w =
          bind_returns (or_internal (list_active_grants e.id)) with_grants w w grants
            (ap (λ s. or_internal (λ (x : World). s) w) listed) in
        let (seed, w2, s) = or_nil_returns {E = RpcError} (get_latest_snapshot env e.id t) w1 in
        let second : with_grants grants w ≡ with_seed seed w2 =
          bind_returns (or_nil (get_latest_snapshot env e.id t)) with_seed w1 w2 seed s in
        let counted : usage e.created_at t ≡ pos used =
          ap (λ (s : Result StoreError ℤ × World). usage_or_zero s.0)
            (fetch_usage-count env c.key m e.created_at t w1 counts) in
        let third =
          ap (λ (o : Option (BalanceResult × List Snapshot)). ((or_fail o hangs >>= finish) w2).0)
            (calculate_balance-none sorter codec fuel t (domain_ent e) grants usage
              (get_or seed none) n) in
        ap (λ s. s.0) (first ∙ second)
        ∙ third
        ∙ ap (λ u. ok (entitlement_value cost (calculate_stateless_balance sorter t grants u)))
            counted
