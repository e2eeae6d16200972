-- ===== src/Store/Writes.antt =====
-- The statements of internal/store/store.go that write: what a relation between the tables before
-- and after must hold over, for it to hold over every operation of the store.
pub mod Single
pub mod Actions
use metery.Prelude.{ltb_ℤ, pos, Bool, true, String, List, some, ◌&&◌, ◌==◌, ◌≡◌}
use metery.Time.{Time}
use metery.Store.Rows.{
  Customer, Meter, Feature, EntitlementRow, GrantRow, Event, SnapshotRow, PlanRow, SubscriptionRow,
  User,
}
use metery.Store.Table.{is_none, insert_row, insert_or_ignore, update_where, is_unique}
use metery.Store.Constraints.{
  same_customer, same_meter, same_feature, same_plan, same_entitlement, same_grant,
  same_subscription, same_event, same_snapshot, is_aggregation,
}
use metery.Store.Db.{Db}
use metery.Store.Db.Keeps.{Relation}
use metery.Store.Catalog.{is_active_customer, names_meter, names_feature}
use metery.Store.Plans.{names_plan, upsert}
use metery.Store.Entitlements.{is_active_for}
use metery.Store.Subscriptions.{cancel_rows}

-- The laws of a relation that the store's statements keep.
pub record Writes (R : Relation) : Type 0 where
  pub insert_customer :
      (c : Customer) (d : Db) (rows : List Customer)
      → insert_row same_customer c d.customers ≡ some rows
      → R.rel d (record d { customers = rows })
  pub rename_customer :
      (id name : String) (d : Db)
      → R.rel d (record d {
        customers =
            update_where (is_active_customer id) (λ c. record c { name = name }) d.customers;
      })
  pub deactivate_customer :
      (id : String) (at : Time) (d : Db)
      → R.rel d (record d {
        customers =
            update_where
              (is_active_customer id)
              (λ c. record c { deactivated_at = some at })
              d.customers;
      })
  pub insert_meter :
      (m : Meter) (d : Db) (rows : List Meter)
      → is_aggregation m.aggregation ≡ true
      → insert_row same_meter m d.meters ≡ some rows
      → R.rel d (record d { meters = rows })
  pub archive_meter :
      (id : String) (at : Time) (d : Db)
      → R.rel d (record d {
        meters =
            update_where
              (λ m. names_meter id m && is_none m.archived_at)
              (λ m. record m { archived_at = some at })
              d.meters;
      })
  pub insert_feature :
      (f : Feature) (d : Db) (rows : List Feature)
      → insert_row same_feature f d.features ≡ some rows
      → R.rel d (record d { features = rows })
  pub archive_feature :
      (id : String) (at : Time) (d : Db)
      → R.rel d (record d {
        features =
            update_where
              (λ f. names_feature id f && is_none f.archived_at)
              (λ f. record f { archived_at = some at })
              d.features;
      })
  pub insert_plan :
      (p : PlanRow) (d : Db) (rows : List PlanRow)
      → insert_row same_plan p d.plans ≡ some rows
      → R.rel d (record d { plans = rows })
  pub archive_plan :
      (id : String) (at : Time) (d : Db)
      → R.rel d (record d {
        plans =
            update_where
              (λ p. names_plan id p && is_none p.archived_at)
              (λ p. record p { archived_at = some at })
              d.plans;
      })
  pub upsert_user :
      (u : User) (d : Db) (rows : List User)
      → upsert u d.users ≡ some rows
      → R.rel d (record d { users = rows })
  pub insert_entitlement :
      (e : EntitlementRow) (d : Db) (rows : List EntitlementRow)
      → insert_row same_entitlement e d.entitlements ≡ some rows
      → R.rel d (record d { entitlements = rows })
  pub delete_entitlement :
      (c f : String) (at : Time) (d : Db)
      → R.rel d (record d {
        entitlements =
            update_where
              (is_active_for c f)
              (λ e. record e { deleted_at = some at })
              d.entitlements;
      })
  pub reset_entitlement :
      (id : String) (at : Time) (d : Db)
      → R.rel d (record d {
        entitlements =
            update_where
              (λ e. e.id == id)
              (λ e. record e { usage_period_anchor = some at })
              d.entitlements;
      })
  pub insert_grant :
      (g : GrantRow) (d : Db) (rows : List GrantRow)
      → ltb_ℤ (pos 0) g.amount ≡ true
      → insert_row same_grant g d.grants ≡ some rows
      → R.rel d (record d { grants = rows })
  pub void_grants :
      (p : GrantRow → Bool) (at : Time) (d : Db)
      → R.rel d (record d {
        grants =
            update_where
              (λ g. p g && is_none g.voided_at)
              (λ g. record g { voided_at = some at })
              d.grants;
      })
  pub insert_subscription :
      (s : SubscriptionRow) (d : Db) (rows : List SubscriptionRow)
      → insert_row same_subscription s d.subscriptions ≡ some rows
      → R.rel d (record d { subscriptions = rows })
  pub cancel_subscription :
      (id : String) (at : Time) (d : Db)
      → R.rel d (record d { subscriptions = cancel_rows id at d.subscriptions })
  pub set_plan :
      (id plan : String) (d : Db)
      → let rows =
          update_where (λ s. s.id == id) (λ s. record s { plan_id = plan }) d.subscriptions in
        is_unique same_subscription rows ≡ true → R.rel d (record d { subscriptions = rows })
  pub ingest_event :
      (e : Event) (d : Db) → R.rel d (record d { events = insert_or_ignore same_event e d.events })
  pub save_snapshot :
      (x : SnapshotRow) (d : Db)
      → R.rel d (record d { snapshots = insert_or_ignore same_snapshot x d.snapshots })
