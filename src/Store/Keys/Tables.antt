-- ===== src/Store/Keys/Tables.antt =====
-- Tables that differ in one table, against the keys of internal/store/migrations/.
use metery.Prelude.{true, ◌||◌, String, List, All, ◌==◌, ==_sym, ◌≡◌, refl}
use metery.Store.Rows.{
  Customer, Meter, Feature, PlanRow, EntitlementRow, GrantRow, Event, SnapshotRow, SubscriptionRow,
  User,
}
use metery.Store.Table.{is_unique}
use metery.Store.Constraints.{
  same_customer, same_meter, same_feature, same_plan, same_event, same_snapshot, same_user,
  is_aggregation,
}
use metery.Store.Db.{Db}
use metery.Store.Keys.{IsKeyed}

-- Two tests on two texts each, the other way round.
pub keys_comm : (a b c d : String) → (a == b || c == d) ≡ (b == a || d == c)
keys_comm a b c d = rw (==_sym a b, ==_sym c d) refl

module _ (d : Db) (h : IsKeyed d) where
  pub with_customers :
      (rows : List Customer)
      → is_unique same_customer rows ≡ true
      → IsKeyed (record d { customers = rows })
  with_customers rows u = record {
    customers = u;
    meters = h.meters;
    features = h.features;
    plans = h.plans;
    aggregations = h.aggregations;
    events = h.events;
    snapshots = h.snapshots;
    users = h.users;
  }

  pub with_meters :
      (rows : List Meter)
      → is_unique same_meter rows ≡ true
      → All (λ m. is_aggregation m.aggregation ≡ true) rows
      → IsKeyed (record d { meters = rows })
  with_meters rows u all = record {
    customers = h.customers;
    meters = u;
    features = h.features;
    plans = h.plans;
    aggregations = all;
    events = h.events;
    snapshots = h.snapshots;
    users = h.users;
  }

  pub with_features :
      (rows : List Feature)
      → is_unique same_feature rows ≡ true
      → IsKeyed (record d { features = rows })
  with_features rows u = record {
    customers = h.customers;
    meters = h.meters;
    features = u;
    plans = h.plans;
    aggregations = h.aggregations;
    events = h.events;
    snapshots = h.snapshots;
    users = h.users;
  }

  pub with_plans :
      (rows : List PlanRow) → is_unique same_plan rows ≡ true → IsKeyed (record d { plans = rows })
  with_plans rows u = record {
    customers = h.customers;
    meters = h.meters;
    features = h.features;
    plans = u;
    aggregations = h.aggregations;
    events = h.events;
    snapshots = h.snapshots;
    users = h.users;
  }

  pub with_users :
      (rows : List User) → is_unique same_user rows ≡ true → IsKeyed (record d { users = rows })
  with_users rows u = record {
    customers = h.customers;
    meters = h.meters;
    features = h.features;
    plans = h.plans;
    aggregations = h.aggregations;
    events = h.events;
    snapshots = h.snapshots;
    users = u;
  }

  pub with_events :
      (rows : List Event) → is_unique same_event rows ≡ true → IsKeyed (record d { events = rows })
  with_events rows u = record {
    customers = h.customers;
    meters = h.meters;
    features = h.features;
    plans = h.plans;
    aggregations = h.aggregations;
    events = u;
    snapshots = h.snapshots;
    users = h.users;
  }

  pub with_snapshots :
      (rows : List SnapshotRow)
      → is_unique same_snapshot rows ≡ true
      → IsKeyed (record d { snapshots = rows })
  with_snapshots rows u = record {
    customers = h.customers;
    meters = h.meters;
    features = h.features;
    plans = h.plans;
    aggregations = h.aggregations;
    events = h.events;
    snapshots = u;
    users = h.users;
  }

  -- The tables on which nothing is asked.
  pub with_rest :
      (entitlements : List EntitlementRow) (grants : List GrantRow)
      (subscriptions : List SubscriptionRow)
      → IsKeyed
          (record d { entitlements = entitlements; grants = grants; subscriptions = subscriptions })
  with_rest entitlements grants subscriptions = record {
    customers = h.customers;
    meters = h.meters;
    features = h.features;
    plans = h.plans;
    aggregations = h.aggregations;
    events = h.events;
    snapshots = h.snapshots;
    users = h.users;
  }
