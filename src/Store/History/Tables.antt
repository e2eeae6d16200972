-- ===== src/Store/History/Tables.antt =====
-- Tables that differ in one table, against what may become of a row.
use metery.Prelude.{List}
use metery.Store.Rows.{
  Customer, Meter, Feature, EntitlementRow, GrantRow, Event, SnapshotRow, PlanRow, SubscriptionRow,
  User,
}
use metery.Store.Db.{Db}
use metery.Store.History.{
  Table, Change, IsHistory, extends_refl, customer_table, meter_table, feature_table,
  entitlement_table, grant_table, event_table, snapshot_table, plan_table, subscription_table,
  user_table,
}
use metery.Store.History
use metery.Store.History.Extended.{Extends}

module _ (d : Db) where
  pub customers-IsHistory :
      (rows : List Customer)
      → Extends (Change customer_table) d.customers rows
      → IsHistory d (record d { customers = rows })
  customers-IsHistory rows h = record { extends = go }
    where
      go :
          (t : Table)
          → Extends (Change t) (History.rows t d) (History.rows t (record d { customers = rows }))
      go customer_table = h
      go other = extends_refl other (History.rows other d)

  pub meters-IsHistory :
      (rows : List Meter)
      → Extends (Change meter_table) d.meters rows
      → IsHistory d (record d { meters = rows })
  meters-IsHistory rows h = record { extends = go }
    where
      go :
          (t : Table)
          → Extends (Change t) (History.rows t d) (History.rows t (record d { meters = rows }))
      go meter_table = h
      go other = extends_refl other (History.rows other d)

  pub features-IsHistory :
      (rows : List Feature)
      → Extends (Change feature_table) d.features rows
      → IsHistory d (record d { features = rows })
  features-IsHistory rows h = record { extends = go }
    where
      go :
          (t : Table)
          → Extends (Change t) (History.rows t d) (History.rows t (record d { features = rows }))
      go feature_table = h
      go other = extends_refl other (History.rows other d)

  pub entitlements-IsHistory :
      (rows : List EntitlementRow)
      → Extends (Change entitlement_table) d.entitlements rows
      → IsHistory d (record d { entitlements = rows })
  entitlements-IsHistory rows h = record { extends = go }
    where
      go :
          (t : Table)
          → Extends
              (Change t)
              (History.rows t d)
              (History.rows t (record d { entitlements = rows }))
      go entitlement_table = h
      go other = extends_refl other (History.rows other d)

  pub grants-IsHistory :
      (rows : List GrantRow)
      → Extends (Change grant_table) d.grants rows
      → IsHistory d (record d { grants = rows })
  grants-IsHistory rows h = record { extends = go }
    where
      go :
          (t : Table)
          → Extends (Change t) (History.rows t d) (History.rows t (record d { grants = rows }))
      go grant_table = h
      go other = extends_refl other (History.rows other d)

  pub events-IsHistory :
      (rows : List Event)
      → Extends (Change event_table) d.events rows
      → IsHistory d (record d { events = rows })
  events-IsHistory rows h = record { extends = go }
    where
      go :
          (t : Table)
          → Extends (Change t) (History.rows t d) (History.rows t (record d { events = rows }))
      go event_table = h
      go other = extends_refl other (History.rows other d)

  pub snapshots-IsHistory :
      (rows : List SnapshotRow)
      → Extends (Change snapshot_table) d.snapshots rows
      → IsHistory d (record d { snapshots = rows })
  snapshots-IsHistory rows h = record { extends = go }
    where
      go :
          (t : Table)
          → Extends (Change t) (History.rows t d) (History.rows t (record d { snapshots = rows }))
      go snapshot_table = h
      go other = extends_refl other (History.rows other d)

  pub plans-IsHistory :
      (rows : List PlanRow)
      → Extends (Change plan_table) d.plans rows
      → IsHistory d (record d { plans = rows })
  plans-IsHistory rows h = record { extends = go }
    where
      go :
          (t : Table)
          → Extends (Change t) (History.rows t d) (History.rows t (record d { plans = rows }))
      go plan_table = h
      go other = extends_refl other (History.rows other d)

  pub subscriptions-IsHistory :
      (rows : List SubscriptionRow)
      → Extends (Change subscription_table) d.subscriptions rows
      → IsHistory d (record d { subscriptions = rows })
  subscriptions-IsHistory rows h = record { extends = go }
    where
      go :
          (t : Table)
          → Extends
              (Change t)
              (History.rows t d)
              (History.rows t (record d { subscriptions = rows }))
      go subscription_table = h
      go other = extends_refl other (History.rows other d)

  pub users-IsHistory :
      (rows : List User)
      → Extends (Change user_table) d.users rows
      → IsHistory d (record d { users = rows })
  users-IsHistory rows h = record { extends = go }
    where
      go :
          (t : Table)
          → Extends (Change t) (History.rows t d) (History.rows t (record d { users = rows }))
      go user_table = h
      go other = extends_refl other (History.rows other d)
