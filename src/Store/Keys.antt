-- ===== src/Store/Keys.antt =====
-- The keys of internal/store/migrations/ over every write of internal/store/store.go on customers,
-- meters, features and plans.
pub mod Tables
pub mod Writes
use metery.Prelude.{Bool, true, String, List, [], ◌∷◌, All, ◌≡◌}
use metery.Store.Rows.{Customer, Meter, Feature, PlanRow}
use metery.Store.Table.{is_unique}
use metery.Store.Constraints.{
  same_customer, same_meter, same_feature, same_plan, is_aggregation, same_event, same_snapshot,
  same_user,
}
use metery.Store.Db.{Db, Env, World, StoreError, Action}
use metery.Store.Db.Keeps.{Relation}
use metery.Store.Catalog.{
  create_customer, update_customer, deactivate_customer, create_meter, archive_meter,
  create_feature, archive_feature,
}
use metery.Store.Plans.{create_plan, archive_plan}

-- Ids, keys, slugs and Google accounts are unique, archived rows included, each meter has an
-- aggregation that the database takes, and an entitlement has one snapshot for an instant.
pub record IsKeyed (db : Db) : Type 0 where
  pub customers : is_unique same_customer db.customers ≡ true
  pub meters : is_unique same_meter db.meters ≡ true
  pub features : is_unique same_feature db.features ≡ true
  pub plans : is_unique same_plan db.plans ≡ true
  pub aggregations : All (λ m. is_aggregation m.aggregation ≡ true) db.meters
  pub events : is_unique same_event db.events ≡ true
  pub snapshots : is_unique same_snapshot db.snapshots ≡ true
  pub users : is_unique same_user db.users ≡ true

abbrev pub stays_keyed : Relation
stays_keyed = record {
  rel = λ d e. IsKeyed d → IsKeyed e;
  rel_refl = λ d h. h;
  rel_trans = λ d e f g h v. h (g v);
}
