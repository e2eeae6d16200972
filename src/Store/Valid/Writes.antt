-- ===== src/Store/Valid/Writes.antt =====
-- The writes of internal/store/store.go against the unique indexes and checks.
use metery.Prelude.{pos, ltb_ℤ, All, sym, subst, true, ◌&&◌, some, List, ◌==◌, ◌≡◌, refl}
use metery.Store.Rows.{EntitlementRow, GrantRow, SubscriptionRow}
use metery.Store.Table.{is_none, is_unique}
use metery.Store.Table.Update.{All-insert_row, All-update_where}
use metery.Store.Table.Unique.{insert_row-is_unique, update_where-is_unique}
use metery.Store.Constraints.{same_entitlement, same_grant, same_subscription}
use metery.Store.Db.{Db}
use metery.Store.Entitlements.{is_active_for}
use metery.Store.Subscriptions.{cancel_row}
use metery.Store.Writes.{Writes}
use metery.Store.Valid.{IsValid, stays_valid}
use metery.Store.Valid.Conflicts.{
  same_entitlement_comm, same_grant_comm, same_subscription_comm, index_left, index_right,
}

-- Tables that differ in one table.
module _ (d : Db) (h : IsValid d) where
  with_entitlements :
      (rows : List EntitlementRow)
      → is_unique same_entitlement rows ≡ true
      → IsValid (record d { entitlements = rows })
  with_entitlements rows u = record {
    entitlements = u;
    grants = h.grants;
    subscriptions = h.subscriptions;
    amounts = h.amounts;
  }

  with_grants :
      (rows : List GrantRow)
      → is_unique same_grant rows ≡ true
      → All (λ g. ltb_ℤ (pos 0) g.amount ≡ true) rows
      → IsValid (record d { grants = rows })
  with_grants rows u all = record {
    entitlements = h.entitlements;
    grants = u;
    subscriptions = h.subscriptions;
    amounts = all;
  }

  with_subscriptions :
      (rows : List SubscriptionRow)
      → is_unique same_subscription rows ≡ true
      → IsValid (record d { subscriptions = rows })
  with_subscriptions rows u = record {
    entitlements = h.entitlements;
    grants = h.grants;
    subscriptions = u;
    amounts = h.amounts;
  }

-- Tables with the same entitlements, grants and subscriptions.
still :
    {d e : Db}
    → IsValid d
    → e.entitlements ≡ d.entitlements
    → e.grants ≡ d.grants
    → e.subscriptions ≡ d.subscriptions
    → IsValid e
still h a b c = record {
  entitlements = rw a h.entitlements;
  grants = rw b h.grants;
  subscriptions = rw c h.subscriptions;
  amounts = subst (All (λ g. ltb_ℤ (pos 0) g.amount ≡ true)) (sym b) h.amounts;
}

pub stays_valid-Writes : Writes stays_valid
stays_valid-Writes = record {
  insert_customer = λ c d rows _ h. still h refl refl refl;
  rename_customer = λ id name d h. still h refl refl refl;
  deactivate_customer = λ id at d h. still h refl refl refl;
  insert_meter = λ m d rows _ _ h. still h refl refl refl;
  archive_meter = λ id at d h. still h refl refl refl;
  insert_feature = λ f d rows _ h. still h refl refl refl;
  archive_feature = λ id at d h. still h refl refl refl;
  insert_plan = λ p d rows _ h. still h refl refl refl;
  archive_plan = λ id at d h. still h refl refl refl;
  upsert_user = λ u d rows _ h. still h refl refl refl;
  insert_entitlement = λ e d rows r h. with_entitlements d h rows (
      insert_row-is_unique same_entitlement same_entitlement_comm e d.entitlements rows r
        h.entitlements);
  delete_entitlement = λ c f at d h. with_entitlements d h _ (
      update_where-is_unique same_entitlement (is_active_for c f)
        (λ e. record e { deleted_at = some at }) (λ a b _ e. index_left (a.id == b.id) _ e)
        (λ a b _ e. index_right (a.id == b.id) (is_none a.deleted_at) _ _ e) d.entitlements
        h.entitlements);
  reset_entitlement = λ id at d h. with_entitlements d h _ (
      update_where-is_unique same_entitlement (λ e. e.id == id)
        (λ e. record e { usage_period_anchor = some at }) (λ a b _ e. e) (λ a b _ e. e)
        d.entitlements h.entitlements);
  insert_grant = λ g d rows high r h.
      with_grants d h rows
        (insert_row-is_unique same_grant same_grant_comm g d.grants rows r h.grants)
        (All-insert_row (λ g. ltb_ℤ (pos 0) g.amount ≡ true) same_grant g d.grants rows r high
          h.amounts);
  void_grants = λ p at d h.
      with_grants d h _
        (update_where-is_unique same_grant (λ g. p g && is_none g.voided_at)
          (λ g. record g { voided_at = some at }) (λ a b _ e. index_left (a.id == b.id) _ e)
          (λ a b _ e. index_right (a.id == b.id) (is_none a.voided_at) _ _ e) d.grants h.grants)
        (All-update_where (λ g. ltb_ℤ (pos 0) g.amount ≡ true) (λ g. p g && is_none g.voided_at)
          (λ g. record g { voided_at = some at }) (λ g k. k) d.grants h.amounts);
  insert_subscription = λ s d rows r h. with_subscriptions d h rows (
      insert_row-is_unique same_subscription same_subscription_comm s d.subscriptions rows r
        h.subscriptions);
  cancel_subscription = λ id at d h. with_subscriptions d h _ (
      update_where-is_unique same_subscription (λ s. s.id == id && is_none s.canceled_at)
        (cancel_row at) (λ a b _ e. index_left (a.id == b.id) _ e)
        (λ a b _ e. index_right (a.id == b.id) (is_none a.canceled_at) _ _ e) d.subscriptions
        h.subscriptions);
  set_plan = λ id plan d apart h. with_subscriptions d h _ apart;
  ingest_event = λ e d h. still h refl refl refl;
  save_snapshot = λ x d h. still h refl refl refl;
}
