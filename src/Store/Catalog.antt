-- ===== src/Store/Catalog.antt =====
-- Customers, meters and features of internal/store/store.go.
use mathlib.Core.Option
use metery.Prelude.{
  ℤ, Bool, none, some, String, List, filter, find?, ◌==◌, ◌||◌, ◌&&◌, if◌then◌else◌, text_lt,
}
use metery.Store.Table.{is_none, insert_row, update_where, order_by, limit_rows}
use metery.Store.Db.{
  Env, StoreError, no_rows, Action, ◌>>=◌, ◌>>◌, gets, or_fail, modify, try_modify, now_second,
}
use metery.Store.Rows.{Customer, Meter, Feature}
use metery.Store.Constraints.{same_customer, same_meter, same_feature, is_aggregation}

-- The columns of the `INSERT`s leave the ends out, so that a new row has none.
abbrev pub stored_customer : Customer → Customer
stored_customer c = record c { deactivated_at = none }

unfoldable pub create_customer : Customer → Action StoreError (Unit {0})
create_customer c = try_modify (λ db.
    Option.map (λ rows. record db { customers = rows })
      (insert_row same_customer (stored_customer c) db.customers))

abbrev pub names_customer : String → Customer → Bool
names_customer id_or_key c = c.id == id_or_key || c.key == id_or_key

unfoldable pub get_customer : String → Action StoreError Customer
get_customer id_or_key = do
  or_fail (← gets (λ db. find? (names_customer id_or_key) db.customers)) no_rows

unfoldable pub list_customers : ℤ → String → Action StoreError (List Customer)
list_customers limit page_token = gets (λ db.
    limit_rows limit
      (order_by (λ a b. text_lt a.id b.id) (filter (λ c. text_lt page_token c.id) db.customers)))

abbrev pub is_active_customer : String → Customer → Bool
is_active_customer id_or_key c = names_customer id_or_key c && is_none c.deactivated_at

unfoldable pub update_customer : String → String → Action StoreError Customer
unfolding get_customer
update_customer id_or_key name = do
  modify (λ db. record db {
    customers =
        update_where (is_active_customer id_or_key) (λ c. record c { name = name }) db.customers;
  })
  get_customer id_or_key

unfoldable pub deactivate_customer : Env → String → Action StoreError (Unit {0})
deactivate_customer env id_or_key = do
  at ← now_second env
  modify (λ db. record db {
    customers =
        update_where (is_active_customer id_or_key) (λ c. record c { deactivated_at = some at })
          db.customers;
  })

abbrev pub stored_meter : Meter → Meter
stored_meter m = record m { archived_at = none }

unfoldable pub create_meter : Meter → Action StoreError (Unit {0})
create_meter m = try_modify (λ db.
    if is_aggregation m.aggregation
    then Option.map (λ rows. record db { meters = rows })
        (insert_row same_meter (stored_meter m) db.meters)
    else none)

abbrev pub names_meter : String → Meter → Bool
names_meter id_or_slug m = m.id == id_or_slug || m.slug == id_or_slug

unfoldable pub get_meter : String → Action StoreError Meter
get_meter id_or_slug = do or_fail (← gets (λ db. find? (names_meter id_or_slug) db.meters)) no_rows

unfoldable pub list_meters : Bool → ℤ → String → Action StoreError (List Meter)
list_meters include_archived limit after = gets (λ db. limit_rows limit (
    order_by (λ a b. text_lt a.id b.id)
      (filter (λ m. text_lt after m.id && (include_archived || is_none m.archived_at)) db.meters)))

unfoldable pub archive_meter : Env → String → Action StoreError (Unit {0})
archive_meter env id_or_slug = do
  at ← now_second env
  modify (λ db. record db {
    meters =
        update_where (λ m. names_meter id_or_slug m && is_none m.archived_at)
          (λ m. record m { archived_at = some at }) db.meters;
  })

abbrev pub stored_feature : Feature → Feature
stored_feature f = record f { archived_at = none }

unfoldable pub create_feature : Feature → Action StoreError (Unit {0})
create_feature f = try_modify (λ db.
    Option.map (λ rows. record db { features = rows })
      (insert_row same_feature (stored_feature f) db.features))

abbrev pub names_feature : String → Feature → Bool
names_feature id_or_slug f = f.id == id_or_slug || f.slug == id_or_slug

unfoldable pub get_feature : String → Action StoreError Feature
get_feature id_or_slug = do
  or_fail (← gets (λ db. find? (names_feature id_or_slug) db.features)) no_rows

unfoldable pub list_features : Bool → ℤ → String → Action StoreError (List Feature)
list_features include_archived limit after = gets (λ db. limit_rows limit (
    order_by (λ a b. text_lt a.id b.id)
      (filter (λ f. text_lt after f.id && (include_archived || is_none f.archived_at))
        db.features)))

unfoldable pub archive_feature : Env → String → Action StoreError (Unit {0})
archive_feature env id_or_slug = do
  at ← now_second env
  modify (λ db. record db {
    features =
        update_where (λ f. names_feature id_or_slug f && is_none f.archived_at)
          (λ f. record f { archived_at = some at }) db.features;
  })
