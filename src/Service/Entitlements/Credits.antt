-- ===== src/Service/Entitlements/Credits.antt =====
-- The value of an entitlement with no usage period whose meter counts, from the tables:
-- `GetEntitlementValue` of internal/service/entitlement.go with internal/store/store.go and
-- internal/ledger/ledger.go.
use metery.Prelude.{
  ℕ, ◌-◌, ◌<◌, ◌^◌, ℤ, pos, ltb, Bool, true, Option, none, some, String, find?, All, IsAmount, ◌==◌,
  ◌≡◌, refl, ap, ◌∙◌, arith,
}
use metery.Time.{Time}
use metery.Ledger.Types.{BalanceResult}
use metery.Ledger.Deduct.{Sorter}
use metery.Ledger.Balance.{calculate_stateless_balance}
use metery.Ledger.Balance.Stateless.{offered, calculate_stateless_balance-offered}
use metery.Store.Rows.{Customer, Feature, Meter, EntitlementRow}
use metery.Store.Db.{Env, World, Result, ok, no_rows, Action, ◌>>=◌, or_fail}
use metery.Store.Catalog.{
  names_customer, names_feature, names_meter, get_customer, get_feature, get_meter,
}
use metery.Store.Entitlements.{is_active_for, list_active_grants}
use metery.Store.Entitlements
use metery.Store.Entitlements.Offered.{
  stored_credits, active_grants, offered-active_grants, All-active_grants, list_active_grants_lem,
}
use metery.Service.Rpc.{Codec, RpcError, not_found, or_refuse, or_internal, or_absent}
use metery.Service.Entitlements.{
  GetEntitlementValueRequest, EntitlementValue, named_customer, named_feature, entitlement_if_any,
  entitlement_value, metered_value, value_of, value_if_any, get_entitlement_value,
}
use metery.Service.Entitlements.Stateless.{bind_returns, eval_time, used, metered_value-stateless}
use metery.Store.Table.Update.{find?-key}

module _ (sorter : Sorter) {M : Type 0} (codec : Codec M) (fuel : ℕ) (env : Env) where
  -- The request names a customer, a feature with a meter that counts, and an active entitlement
  -- with no usage period, all stored.
  pub record IsCounted (req : GetEntitlementValueRequest) (w : World) : Type 0 where
    pub customer : Customer
    pub has_customer : find? (names_customer req.customer_id_or_key) w.db.customers ≡ some customer
    pub feature : Feature
    pub has_feature : find? (names_feature req.feature_id_or_slug) w.db.features ≡ some feature
    pub meter_id : String
    pub metered : feature.meter_id ≡ some meter_id
    pub meter : Meter
    pub has_meter : find? (names_meter meter_id) w.db.meters ≡ some meter
    pub counts : (meter.aggregation == "count") ≡ true
    pub entitlement : EntitlementRow
    pub entitled : find? (is_active_for customer.id feature.id) w.db.entitlements ≡ some entitlement
    pub no_period : entitlement.usage_period_duration ≡ none

  module _ (req : GetEntitlementValueRequest) (w : World) (k : IsCounted req w) where
    abbrev value_at : Customer → Option String → Action RpcError EntitlementValue
    value_at c id = value_of sorter codec fuel env c k.entitlement req.at req.cost id

    value_of_counted :
        value_at k.customer k.feature.meter_id w
        ≡ metered_value sorter codec fuel env k.customer k.meter k.entitlement req.at req.cost w
    unfolding value_of get_meter
    value_of_counted =
        ap (λ id. value_at k.customer id w) k.metered
        ∙ bind_returns (or_internal (get_meter k.meter_id))
            (λ m. metered_value sorter codec fuel env k.customer m k.entitlement req.at req.cost) w
            w k.meter (ap (λ o. or_internal (λ (x : World). or_fail o no_rows w) w) k.has_meter)

    get_entitlement_value-counted :
        get_entitlement_value sorter codec fuel env req w
        ≡ metered_value sorter codec fuel env k.customer k.meter k.entitlement req.at req.cost w
    unfolding get_entitlement_value entitlement_if_any value_if_any get_customer get_feature
        Entitlements.get_entitlement
    get_entitlement_value-counted =
        let answer =
          λ (c : Customer) (f : Feature). value_if_any sorter codec fuel env c f req.at req.cost in
        let with_feature = λ (c : Customer) (f : Feature). entitlement_if_any c f >>= answer c f in
        let with_customer =
          λ (c : Customer). named_feature req.feature_id_or_slug >>= with_feature c in
        bind_returns (named_customer req.customer_id_or_key) with_customer w w k.customer (
          ap (λ o. or_refuse (λ (x : World). or_fail o no_rows w) not_found "customer not found" w)
            k.has_customer)
        ∙ bind_returns (named_feature req.feature_id_or_slug) (with_feature k.customer) w w
            k.feature
            (ap
              (λ o. or_refuse (λ (x : World). or_fail o no_rows w) not_found "feature not found" w)
              k.has_feature)
        ∙ bind_returns (entitlement_if_any k.customer k.feature) (answer k.customer k.feature) w w
            (some k.entitlement)
            (ap (λ o. or_absent (λ (x : World). or_fail o no_rows w) w) k.entitled)
        ∙ value_of_counted

    abbrev pub instant : Time
    instant = eval_time sorter codec fuel env k.customer k.meter k.entitlement req.at req.cost w

    abbrev pub credits : ℕ
    credits = stored_credits instant k.entitlement.id w.db.grants

    abbrev pub events : ℕ
    events = used sorter codec fuel env k.customer k.meter k.entitlement req.at req.cost w

    abbrev result : Bool → ℤ → ℤ → BalanceResult
    result access balance overage = record {
      has_access = access;
      balance = balance;
      usage = pos events;
      overage = overage;
      period = none;
      last_reset = none;
    }

    -- For any sorter, codec, fuel, environment and world, and a request that names a stored
    -- customer, a stored feature with a stored meter that counts, and an active entitlement
    -- with no usage period: if amounts of grants are from 0 up to 2^63 - 1 and the credits
    -- and the events below are less than 2^63, `GetEntitlementValue` succeeds and answers
    -- with the balance max(0, credits - events), the usage events, the overage max(0, events
    -- - credits), and access exactly if events < credits and a cost, if one is given, is no
    -- more than the balance. Here credits is the sum of the amounts of the entitlement's
    -- grants in the table that are not voided, effective by the instant asked for (by default
    -- the present second) and not expired at it, and events is the number of the events of
    -- the meter's type that name the customer by its key, from the entitlement's creation up
    -- to that instant.
    pub get_entitlement_value-credits :
        All (λ g. IsAmount g.amount) w.db.grants
        → credits < 2 ^ 63
        → events < 2 ^ 63
        → (get_entitlement_value sorter codec fuel env req w).0
          ≡ ok (
              entitlement_value req.cost (record {
                has_access = ltb events credits;
                balance = pos (credits - events);
                usage = pos events;
                overage = pos (events - credits);
                period = none;
                last_reset = none;
              }))
    unfolding calculate_stateless_balance
    get_entitlement_value-credits amounts fits few =
        let e = k.entitlement in
        let (row, f) =
          find?-key (λ r. r.id) (is_active_for k.customer.id k.feature.id) w.db.entitlements e
            k.entitled in
        let grants = active_grants row.rollover_max e.id w.db.grants in
        let same : offered instant grants ≡ credits =
          offered-active_grants row.rollover_max instant e.id w.db.grants in
        let (b, o, a) =
          calculate_stateless_balance-offered sorter instant grants (pos events) (refl, few)
            (All-active_grants row.rollover_max e.id w.db.grants amounts) (omega (arith, same)) in
        let put : BalanceResult → Result RpcError EntitlementValue =
          λ r. ok (entitlement_value req.cost r) in
        let r = calculate_stateless_balance sorter instant grants (pos events) in
        ap (λ s. s.0) get_entitlement_value-counted
        ∙ metered_value-stateless sorter codec fuel env k.customer k.meter e req.at req.cost w
            grants k.counts k.no_period (list_active_grants_lem e.id row w f)
        ∙ ap (λ x. put (result x r.balance r.overage)) (a ∙ ap (λ n. ltb events n) same)
        ∙ ap (λ x. put (result (ltb events credits) x r.overage))
            (b ∙ ap (λ n. pos (n - events)) same)
        ∙ ap (λ x. put (result (ltb events credits) (pos (credits - events)) x))
            (o ∙ ap (λ n. pos (events - n)) same)
