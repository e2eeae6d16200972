-- ===== src/Store/Constraints.antt =====
-- The keys, unique indexes and checks of internal/store/migrations/.
use metery.Prelude.{eqb_ℤ, Bool, false, Option, none, some, String, [], ◌∷◌, any, ◌==◌, ◌||◌, ◌&&◌}
use metery.Store.Rows.{
  Customer, Meter, Feature, EntitlementRow, GrantRow, Event, SnapshotRow, PlanRow, SubscriptionRow,
  User,
}
use metery.Store.Table.{is_none}

abbrev pub same_customer : Customer → Customer → Bool
same_customer a b = a.id == b.id || a.key == b.key

abbrev pub same_meter : Meter → Meter → Bool
same_meter a b = a.id == b.id || a.slug == b.slug

-- `CHECK (aggregation IN (…))`.
abbrev pub is_aggregation : String → Bool
is_aggregation s = any (λ a. a == s) ("count" ∷ "sum" ∷ "avg" ∷ "min" ∷ "max" ∷ "unique_count" ∷ [])

abbrev pub same_feature : Feature → Feature → Bool
same_feature a b = a.id == b.id || a.slug == b.slug

-- The primary key, and `entitlements_active_uniq`.
abbrev pub same_entitlement : EntitlementRow → EntitlementRow → Bool
same_entitlement a b =
    a.id == b.id
    || ((is_none a.deleted_at && is_none b.deleted_at)
        && (a.customer_id == b.customer_id && a.feature_id == b.feature_id))

-- Two NULLs are not equal in a unique index.
abbrev pub same_value : Option String → Option String → Bool
same_value none s = false
same_value (some r) none = false
same_value (some r) (some s) = r == s

-- The primary key, and `grants_subscription_emission_uniq`.
abbrev pub same_grant : GrantRow → GrantRow → Bool
same_grant a b =
    a.id == b.id
    || ((is_none a.voided_at && is_none b.voided_at)
        && (same_value a.subscription_id b.subscription_id
            && (a.entitlement_id == b.entitlement_id && eqb_ℤ a.effective_at b.effective_at)))

abbrev pub same_event : Event → Event → Bool
same_event a b = a.id == b.id

abbrev pub same_snapshot : SnapshotRow → SnapshotRow → Bool
same_snapshot a b = a.entitlement_id == b.entitlement_id && eqb_ℤ a.as_of b.as_of

abbrev pub same_plan : PlanRow → PlanRow → Bool
same_plan a b = a.id == b.id || a.slug == b.slug

-- The primary key, and `subscriptions_active_plan_uniq`.
abbrev pub same_subscription : SubscriptionRow → SubscriptionRow → Bool
same_subscription a b =
    a.id == b.id
    || ((is_none a.canceled_at && is_none b.canceled_at)
        && (a.customer_id == b.customer_id && a.plan_id == b.plan_id))

abbrev pub same_user : User → User → Bool
same_user a b = a.id == b.id || a.google_id == b.google_id
