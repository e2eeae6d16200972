-- ===== src/Store/Entitlements.antt =====
-- Entitlements and grants of internal/store/store.go.
pub mod Offered
use mathlib.Core.Option
use metery.Prelude.{
  ℤ, pos, ltb_ℤ, eqb_ℤ, Bool, true, Option, none, some, String, List, filter, find?, map, ◌==◌,
  ◌||◌, ◌&&◌, if◌then◌else◌, text_lt,
}
use metery.Time.{Time, before}
use metery.Ledger.Types.{Grant}
use metery.Store.Rows.{EntitlementRow, GrantRow}
use metery.Store.Table.{is_none, is_value, insert_row, update_where, order_by, limit_rows}
use metery.Store.Constraints.{same_entitlement, same_grant}
use metery.Store.Db.{
  Env, Db, StoreError, no_rows, Action, ◌>>=◌, pure, gets, or_fail, modify, try_modify, now_second,
}

-- The columns of the `INSERT`s leave the ends out, so that a new row has none.
abbrev pub stored_entitlement : EntitlementRow → EntitlementRow
stored_entitlement e = record e { deleted_at = none }

abbrev pub stored_grant : GrantRow → GrantRow
stored_grant g = record g { voided_at = none }

-- Writes on the tables alone.
abbrev pub add_entitlement : EntitlementRow → Db → Option Db
add_entitlement e db =
    Option.map (λ rows. record db { entitlements = rows })
      (insert_row same_entitlement (stored_entitlement e) db.entitlements)

-- The check `amount > 0` comes with the table.
abbrev pub add_grant : GrantRow → Db → Option Db
add_grant g db =
    if ltb_ℤ (pos 0) g.amount
    then Option.map (λ rows. record db { grants = rows })
        (insert_row same_grant (stored_grant g) db.grants)
    else none

unfoldable pub create_entitlement : EntitlementRow → Action StoreError (Unit {0})
create_entitlement e = try_modify (add_entitlement e)

abbrev pub is_active_for : String → String → EntitlementRow → Bool
is_active_for customer_id feature_id e =
    (e.customer_id == customer_id && e.feature_id == feature_id) && is_none e.deleted_at

unfoldable pub get_entitlement : String → String → Action StoreError EntitlementRow
get_entitlement customer_id feature_id = do
  or_fail (← gets (λ db. find? (is_active_for customer_id feature_id) db.entitlements)) no_rows

unfoldable pub create_grant : GrantRow → Action StoreError (Unit {0})
create_grant g = try_modify (add_grant g)

abbrev pub by_priority : GrantRow → GrantRow → Bool
by_priority a b =
    ltb_ℤ a.priority b.priority
    || (eqb_ℤ a.priority b.priority && before a.effective_at b.effective_at)

abbrev pub to_ledger : Option ℤ → GrantRow → Grant
to_ledger rollover_max r = record {
  id = r.id;
  amount = r.amount;
  priority = r.priority;
  effective_at = r.effective_at;
  expires_at = r.expires_at;
  rollover_max = rollover_max;
}

unfoldable pub list_active_grants : String → Action StoreError (List Grant)
list_active_grants entitlement_id = do
  e ← or_fail (← gets (λ db. find? (λ e. e.id == entitlement_id) db.entitlements)) no_rows
  rows ← gets (λ db.
      order_by by_priority
        (filter (λ g. g.entitlement_id == entitlement_id && is_none g.voided_at) db.grants))
  pure (map (to_ledger e.rollover_max) rows)

-- The last of the rows with the greatest `effective_at`; rows that tie stand in an open order.
abbrev pub later_first : GrantRow → GrantRow → Bool
later_first a b = before b.effective_at a.effective_at

unfoldable pub get_latest_subscription_grant : String → String → Action StoreError GrantRow
get_latest_subscription_grant subscription_id entitlement_id = do
  or_fail
      (← gets (λ db.
        find? (λ g. true)
          (order_by later_first (
            filter
              (λ g.
                is_value g.subscription_id subscription_id && g.entitlement_id == entitlement_id)
              db.grants))))
      no_rows

unfoldable pub list_entitlements : String → ℤ → String → Action StoreError (List EntitlementRow)
list_entitlements customer_id limit after = gets (λ db. limit_rows limit (
    order_by (λ a b. text_lt a.id b.id)
      (filter (λ e. (e.customer_id == customer_id && text_lt after e.id) && is_none e.deleted_at)
        db.entitlements)))

unfoldable pub delete_entitlement : Env → String → String → Action StoreError (Unit {0})
delete_entitlement env customer_id feature_id = do
  at ← now_second env
  modify (λ db. record db {
    entitlements =
        update_where (is_active_for customer_id feature_id) (λ e. record e { deleted_at = some at })
          db.entitlements;
  })

unfoldable pub reset_entitlement : String → Time → Action StoreError (Unit {0})
reset_entitlement entitlement_id at = modify (λ db. record db {
  entitlements =
      update_where (λ e. e.id == entitlement_id) (λ e. record e { usage_period_anchor = some at })
        db.entitlements;
})

unfoldable pub list_grants : String → Bool → ℤ → String → Action StoreError (List GrantRow)
list_grants entitlement_id include_voided limit after = gets (λ db. limit_rows limit (
    order_by (λ a b. text_lt a.id b.id)
      (filter
        (λ g.
          (g.entitlement_id == entitlement_id && text_lt after g.id)
          && (include_voided || is_none g.voided_at))
        db.grants)))

unfoldable pub void_grant : Env → String → Action StoreError (Unit {0})
void_grant env id = do
  at ← now_second env
  modify (λ db. record db {
    grants =
        update_where (λ g. g.id == id && is_none g.voided_at)
          (λ g. record g { voided_at = some at }) db.grants;
  })
