-- ===== src/Service/Entitlements/Shape.antt =====
-- Which fields an answer of `GetEntitlementValue` has (internal/service/entitlement.go).
use metery.Prelude.{
  ℕ, String, List, ℤ, ltb_ℤ, Bool, true, false, not, ◌&&◌, Option, none, some, ◌≡◌, refl, sym,
  subst, Bool-cases, inl, inr,
}
use metery.Time.{Time}
use metery.Ledger.Types.{BalanceResult, Snapshot}
use metery.Ledger.Deduct.{Sorter}
use metery.Ledger.Balance.{calculate_balance}
use metery.Store.Rows.{Customer, Feature, Meter, EntitlementRow}
use metery.Store.Db.{
  Env, World, Result, ok, err, ok_inj, ok≢err, Action, ◌>>=◌, pure, or_fail, now_second,
}
use metery.Store.Catalog.{get_meter}
use metery.Store.Entitlements.{list_active_grants}
use metery.Store.Snapshots.{get_latest_snapshot, save_snapshots}
use metery.Service.Rpc.{Codec, RpcError, hangs, or_internal, or_nil, get_or}
use metery.Service.Entitlements.{
  GetEntitlementValueRequest, EntitlementValue, named_customer, named_feature, entitlement_if_any,
  usage_reader, domain_ent, entitlement_value, plain_value, metered_value, value_of, value_if_any,
  get_entitlement_value,
}

-- A cost, if there is one, is no more than the balance.
abbrev pub within : Option ℤ → ℤ → Bool
within none balance = true
within (some c) balance = not (ltb_ℤ balance c)

-- An answer with all three numbers or none of them, and no access beyond the balance.
pub data IsValue (cost : Option ℤ) (v : EntitlementValue) : Type 0 where
  plain : (access : Bool) → v ≡ plain_value access → IsValue cost v
  metered :
      (access : Bool) (balance usage overage : ℤ)
      → v ≡ record {
        has_access = within cost balance && access;
        balance = some balance;
        usage = some usage;
        overage = some overage;
      }
      → IsValue cost v

entitlement_value-IsValue :
    (cost : Option ℤ) (res : BalanceResult) → IsValue cost (entitlement_value cost res)
unfolding entitlement_value
entitlement_value-IsValue none res = metered res.has_access res.balance res.usage res.overage refl
entitlement_value-IsValue (some c) res = elim (Bool-cases (ltb_ℤ res.balance c)) [
  | inl over ↦ metered res.has_access res.balance res.usage res.overage (rw over refl)
  | inr fits ↦ metered res.has_access res.balance res.usage res.overage (rw fits refl)
]

-- Whatever it answers with meets a condition.
record Yields {A : Type 0} (Q : A → Type 0) (m : Action RpcError A) : Type 0 where
  yields : (w : World) (a : A) → (m w).0 ≡ ok a → Q a

Yields-pure : {A : Type 0} (Q : A → Type 0) (a : A) → Q a → Yields Q (pure a)
Yields-pure Q a h = record { yields = λ w b e. subst Q (ok_inj e) h }

Yields-bind :
    {A B : Type 0} (Q : B → Type 0) (m : Action RpcError A) (f : A → Action RpcError B)
    → ((a : A) → Yields Q (f a))
    → Yields Q (m >>= f)
Yields-bind {A} {B} Q m f k = record { yields = λ w. through w (m w) }
  where
    through :
        (w : World) (s : Result RpcError A × World) (b : B)
        → (((λ (x : World). s) >>= f) w).0 ≡ ok b
        → Q b
    through w (ok a, v) b e = (k a).yields v b e
    through w (err x, v) b e = absurd (ok≢err (sym e))

module _ (sorter : Sorter) {M : Type 0} (codec : Codec M) (fuel : ℕ) (env : Env) where
  metered_value-IsValue :
      (c : Customer) (m : Meter) (e : EntitlementRow) (at : Option Time) (cost : Option ℤ)
      → Yields (IsValue cost) (metered_value sorter codec fuel env c m e at cost)
  unfolding metered_value
  metered_value-IsValue c m e at cost =
      Yields-bind (IsValue cost) (or_internal (list_active_grants e.id)) _ (λ grants.
        Yields-bind (IsValue cost) (now_second env) _ (λ default_at.
          Yields-bind (IsValue cost) (usage_reader env c m) _ (λ usage.
            Yields-bind (IsValue cost)
              (or_nil (get_latest_snapshot env e.id (get_or at default_at))) _
              (λ seed.
                Yields-bind (IsValue cost)
                  (or_fail
                    (calculate_balance sorter codec.parse_duration fuel (get_or at default_at)
                      (domain_ent e) grants usage (get_or seed none))
                    hangs)
                  _
                  (λ (answer : BalanceResult × List Snapshot).
                    Yields-bind (IsValue cost) (or_nil (save_snapshots env answer.1 e.id)) _
                      (λ saved.
                        Yields-pure (IsValue cost) _ (entitlement_value-IsValue cost answer.0)))))))

  value_of-IsValue :
      (c : Customer) (e : EntitlementRow) (at : Option Time) (cost : Option ℤ) (id : Option String)
      → Yields (IsValue cost) (value_of sorter codec fuel env c e at cost id)
  unfolding value_of
  value_of-IsValue c e at cost none = Yields-pure (IsValue cost) _ (plain true refl)
  value_of-IsValue c e at cost (some id) =
      Yields-bind (IsValue cost) (or_internal (get_meter id)) _
        (λ m. metered_value-IsValue c m e at cost)

  value_if_any-IsValue :
      (c : Customer) (f : Feature) (at : Option Time) (cost : Option ℤ)
      (found : Option EntitlementRow)
      → Yields (IsValue cost) (value_if_any sorter codec fuel env c f at cost found)
  unfolding value_if_any
  value_if_any-IsValue c f at cost none = Yields-pure (IsValue cost) _ (plain false refl)
  value_if_any-IsValue c f at cost (some e) = value_of-IsValue c e at cost f.meter_id

  -- For any sorter, codec, fuel, environment, request and world, if `GetEntitlementValue`
  -- answers with a value, then the value has a balance, a usage and an overage, or none of the
  -- three; and where it has them, it gives access only if a cost, if the request has one, is no
  -- more than the balance.
  pub get_entitlement_value-IsValue :
      (req : GetEntitlementValueRequest) (v : EntitlementValue) (w : World)
      → (get_entitlement_value sorter codec fuel env req w).0 ≡ ok v
      → IsValue req.cost v
  unfolding get_entitlement_value
  get_entitlement_value-IsValue req v w =
      (Yields-bind (IsValue req.cost) (named_customer req.customer_id_or_key) _ (λ c.
          Yields-bind (IsValue req.cost) (named_feature req.feature_id_or_slug) _ (λ f.
            Yields-bind (IsValue req.cost) (entitlement_if_any c f)
              (value_if_any sorter codec fuel env c f req.at req.cost)
              (value_if_any-IsValue c f req.at req.cost)))).yields
        w v
