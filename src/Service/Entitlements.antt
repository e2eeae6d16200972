-- ===== src/Service/Entitlements.antt =====
-- internal/service/entitlement.go: the handlers of entitlements.
pub mod Reads
pub mod Stateless
pub mod Credits
pub mod Shape
use mathlib.Core.Option
use metery.Prelude.{
  ℕ, ℤ, pos, ltb_ℤ, Bool, true, false, Option, none, some, String, List, [], ◌∷◌, if◌then◌else◌,
}
use metery.Time.{Time}
use metery.Ledger.Types.{Entitlement as LedgerEntitlement, BalanceResult, FetchUsage}
use metery.Ledger.Deduct.{Sorter}
use metery.Ledger.Balance.{calculate_balance}
use metery.Store.Rows.{Feature, EntitlementRow, Customer, Meter}
use metery.Store.Db.{
  Env, Result, ok, err, StoreError, no_rows, Action, ◌>>=◌, ◌>>◌, pure, or_fail, now_second,
  new_ulid,
}
use metery.Store.Catalog.{get_customer, get_feature, get_meter}
use metery.Store.Entitlements
use metery.Store.Usage.{fetch_usage}
use metery.Store.Snapshots.{get_latest_snapshot, save_snapshots}
use metery.Service.Rpc.{
  not_found, RpcError, store_failed, hangs, or_refuse, or_internal, or_nil, or_absent, get_or,
  UsagePeriod, Codec,
}

-- The `Entitlement` and the `EntitlementValue` of the API.
pub record Entitlement : Type 0 where
  pub id : String
  pub customer_key : String
  pub feature_slug : String
  pub created_at : Time
  pub usage_period : Option UsagePeriod
  pub deleted_at : Option Time

pub record EntitlementValue : Type 0 where
  pub has_access : Bool
  pub balance : Option ℤ
  pub usage : Option ℤ
  pub overage : Option ℤ

-- A request that names a customer and a feature.
pub record EntitlementRequest : Type 0 where
  pub customer_id_or_key : String
  pub feature_id_or_slug : String

pub record CreateEntitlementRequest : Type 0 where
  pub customer_id_or_key : String
  pub feature_id_or_slug : String
  pub usage_period : Option UsagePeriod

pub record ListEntitlementsRequest : Type 0 where
  pub customer_id_or_key : String
  pub limit : Option ℤ
  pub after : Option String

pub record GetEntitlementValueRequest : Type 0 where
  pub customer_id_or_key : String
  pub feature_id_or_slug : String
  pub at : Option Time
  pub cost : Option ℤ

pub record ResetEntitlementRequest : Type 0 where
  pub customer_id_or_key : String
  pub feature_id_or_slug : String
  pub at : Option Time

unfoldable pub entitlement_to_proto : EntitlementRow → String → String → Entitlement
entitlement_to_proto e customer_key feature_slug = record {
  id = e.id;
  customer_key = customer_key;
  feature_slug = feature_slug;
  created_at = e.created_at;
  usage_period =
      Option.map (λ d. record { duration = d; anchor = e.usage_period_anchor })
        e.usage_period_duration;
  deleted_at = e.deleted_at;
}

-- The lookups that the handlers begin with.
abbrev pub named_customer : String → Action RpcError Customer
named_customer id_or_key = or_refuse (get_customer id_or_key) not_found "customer not found"

abbrev pub named_feature : String → Action RpcError Feature
named_feature id_or_slug = or_refuse (get_feature id_or_slug) not_found "feature not found"

abbrev pub named_entitlement : Customer → Feature → Action RpcError EntitlementRow
named_entitlement c f =
    or_refuse (Entitlements.get_entitlement c.id f.id) not_found "entitlement not found"

unfoldable pub create_entitlement : Env → CreateEntitlementRequest → Action RpcError Entitlement
create_entitlement env req = do
  c ← named_customer req.customer_id_or_key
  f ← named_feature req.feature_id_or_slug
  id ← new_ulid env
  created ← now_second env
  let e : EntitlementRow = record {
    id = id;
    customer_id = c.id;
    feature_id = f.id;
    usage_period_duration = Option.map (λ p. p.duration) req.usage_period;
    usage_period_anchor = none;
    rollover_max = none;
    created_at = created;
    deleted_at = none;
    subscription_id = none;
  }
  or_internal (Entitlements.create_entitlement e)
  pure (entitlement_to_proto e c.key f.slug)

unfoldable pub get_entitlement : EntitlementRequest → Action RpcError Entitlement
get_entitlement req = do
  c ← named_customer req.customer_id_or_key
  f ← named_feature req.feature_id_or_slug
  e ← named_entitlement c f
  pure (entitlement_to_proto e c.key f.slug)

-- The feature's slug for each row, empty where there is no feature.
unfoldable pub entitlements_to_proto :
    String → List EntitlementRow → Action RpcError (List Entitlement)
entitlements_to_proto customer_key [] = pure []
entitlements_to_proto customer_key (e ∷ es) = do
  f ← or_nil (get_feature e.feature_id)
  rest ← entitlements_to_proto customer_key es
  pure (entitlement_to_proto e customer_key (get_or (Option.map (λ f. f.slug) f) "") ∷ rest)

unfoldable pub list_entitlements : ListEntitlementsRequest → Action RpcError (List Entitlement)
list_entitlements req = do
  c ← named_customer req.customer_id_or_key
  es ←
      or_internal
        (Entitlements.list_entitlements c.id (get_or req.limit (pos 100)) (get_or req.after ""))
  entitlements_to_proto c.key es

unfoldable pub delete_entitlement : Env → EntitlementRequest → Action RpcError (Unit {0})
delete_entitlement env req = do
  c ← named_customer req.customer_id_or_key
  f ← named_feature req.feature_id_or_slug
  or_internal (Entitlements.delete_entitlement env c.id f.id)

unfoldable pub reset_entitlement : Env → ResetEntitlementRequest → Action RpcError (Unit {0})
reset_entitlement env req = do
  c ← named_customer req.customer_id_or_key
  f ← named_feature req.feature_id_or_slug
  e ← named_entitlement c f
  default_at ← now_second env
  or_internal (Entitlements.reset_entitlement e.id (get_or req.at default_at))

-- The answer for no entitlement, and for a feature that has no meter.
abbrev pub plain_value : Bool → EntitlementValue
plain_value access = record { has_access = access; balance = none; usage = none; overage = none }

-- The answer from a balance: a cost above it takes the access away.
unfoldable pub entitlement_value : Option ℤ → BalanceResult → EntitlementValue
entitlement_value cost res = record {
  has_access = elim cost [
    | none ↦ res.has_access
    | some c ↦ if ltb_ℤ res.balance c then false else res.has_access
  ];
  balance = some res.balance;
  usage = some res.usage;
  overage = some res.overage;
}

-- The closure `fetchUsage`: a query that fails counts as no usage.
abbrev pub usage_or_zero : Result StoreError ℤ → ℤ
usage_or_zero (ok n) = n
usage_or_zero (err e) = pos 0

unfoldable pub usage_reader : Env → Customer → Meter → Action RpcError FetchUsage
usage_reader env c m w =
    (ok (λ from to. let (r, _) = fetch_usage env c.key m from to w in usage_or_zero r), w)

-- `GetEntitlement` of the store, where no row is no error.
unfoldable pub entitlement_if_any : Customer → Feature → Action RpcError (Option EntitlementRow)
entitlement_if_any c f = or_absent (Entitlements.get_entitlement c.id f.id)

-- The entitlement as the ledger takes it.
abbrev pub domain_ent : EntitlementRow → LedgerEntitlement
domain_ent e = record {
  id = e.id;
  usage_period_duration = e.usage_period_duration;
  usage_period_anchor = e.usage_period_anchor;
  created_at = e.created_at;
}

module _ (sorter : Sorter) {M : Type 0} (codec : Codec M) (fuel : ℕ) (env : Env) where
  -- The value of a metered entitlement. The goroutine that saves the snapshots runs at once here.
  unfoldable pub metered_value :
      Customer → Meter → EntitlementRow → Option Time → Option ℤ → Action RpcError EntitlementValue
  metered_value c m e at cost = do
    grants ← or_internal (Entitlements.list_active_grants e.id)
    default_at ← now_second env
    let eval_time = get_or at default_at
    usage ← usage_reader env c m
    seed ← or_nil (get_latest_snapshot env e.id eval_time)
    answer ←
        or_fail
          (calculate_balance sorter codec.parse_duration fuel eval_time (domain_ent e) grants usage
            (get_or seed none))
          hangs
    or_nil (save_snapshots env answer.1 e.id)
    pure (entitlement_value cost answer.0)

  -- A feature with no meter is there or not; one with a meter has a balance.
  unfoldable pub value_of :
      Customer
      → EntitlementRow
      → Option Time
      → Option ℤ
      → Option String
      → Action RpcError EntitlementValue
  value_of c e at cost none = pure (plain_value true)
  value_of c e at cost (some meter_id) = do
    m ← or_internal (get_meter meter_id)
    metered_value c m e at cost

  unfoldable pub value_if_any :
      Customer
      → Feature
      → Option Time
      → Option ℤ
      → Option EntitlementRow
      → Action RpcError EntitlementValue
  value_if_any c f at cost none = pure (plain_value false)
  value_if_any c f at cost (some e) = value_of c e at cost f.meter_id

  unfoldable pub get_entitlement_value :
      GetEntitlementValueRequest → Action RpcError EntitlementValue
  get_entitlement_value req = do
    c ← named_customer req.customer_id_or_key
    f ← named_feature req.feature_id_or_slug
    found ← entitlement_if_any c f
    value_if_any c f req.at req.cost found
