-- ===== src/Store/History/Writes.antt =====
-- Each statement of internal/store/store.go against what may become of a row.
use metery.Prelude.{
  Bool, true, false, ◌&&◌, Option, none, some, List, any, ◌==◌, ◌≡◌, refl, subst, arith, Bool-cases,
  inl, inr, some_inj,
}
use metery.Time.{Time}
use metery.Store.Rows.{User}
use metery.Store.Table.{is_none, coalesce, insert_row, update_where}
use metery.Store.Constraints.{
  same_customer, same_meter, same_feature, same_plan, same_entitlement, same_grant,
  same_subscription, same_event, same_snapshot,
}
use metery.Store.Catalog.{names_customer, is_active_customer, names_meter, names_feature}
use metery.Store.Plans.{names_plan, upsert}
use metery.Store.Entitlements.{is_active_for}
use metery.Store.Subscriptions.{cancel_row}
use metery.Store.Writes.{Writes}
use metery.Store.History.{
  Table, Row, Change, Change-refl, Once, Once-refl, history, customer_table, meter_table,
  feature_table, entitlement_table, grant_table, event_table, snapshot_table, plan_table,
  subscription_table, user_table,
}
use metery.Store.History.Tables.{
  customers-IsHistory, meters-IsHistory, features-IsHistory, entitlements-IsHistory,
  grants-IsHistory, events-IsHistory, snapshots-IsHistory, plans-IsHistory, subscriptions-IsHistory,
  users-IsHistory,
}
use metery.Store.History.Extended.{
  Extends, Extends-insert_row, Extends-insert_or_ignore, Extends-update_where,
}

-- A column that the condition of the update finds unset.
once : (o : Option Time) (c : Bool) (t : Time) → (c && is_none o) ≡ true → Once o (some t)
once none c t h = tt
once (some u) true t h = absurd (ground arith)
once (some u) false t h = absurd (ground arith)

coalesce-Once : (o : Option Time) (t : Time) → Once o (coalesce o t)
coalesce-Once none t = tt
coalesce-Once (some u) t = refl

module _ (t : Table) where
  inserted :
      (conflict : Row t → Row t → Bool) (x : Row t) (xs after : List (Row t))
      → insert_row conflict x xs ≡ some after
      → Extends (Change t) xs after
  inserted = Extends-insert_row (Change t) (Change-refl t)

  updated :
      (p : Row t → Bool) (set : Row t → Row t)
      → ((x : Row t) → p x ≡ true → Change t x (set x))
      → (xs : List (Row t)) → Extends (Change t) xs (update_where p set xs)
  updated = Extends-update_where (Change t) (Change-refl t)

upsert-Extends :
    (u : User) (xs after : List User)
    → upsert u xs ≡ some after
    → Extends (Change user_table) xs after
upsert-Extends u xs after e = elim (Bool-cases (any (λ r. r.google_id == u.google_id) xs)) [
  | inl there ↦ subst (Extends (Change user_table) xs) (some_inj (rw there at e)) (
      updated user_table (λ r. r.google_id == u.google_id)
        (λ r. record r { email = u.email; name = u.name }) (λ x _. refl) xs)
  | inr new ↦ inserted user_table (λ a b. a.id == b.id) u xs after (rw new at e)
]

pub history-Writes : Writes history
history-Writes = record {
  insert_customer = λ c d rows e.
      customers-IsHistory d _ (inserted customer_table same_customer c d.customers rows e);
  rename_customer = λ id name d. customers-IsHistory d _ (
      updated customer_table (is_active_customer id) (λ c. record c { name = name })
        (λ x _. (refl, Once-refl x.deactivated_at)) d.customers);
  deactivate_customer = λ id at d. customers-IsHistory d _ (
      updated customer_table (is_active_customer id) (λ c. record c { deactivated_at = some at })
        (λ x e. (refl, once x.deactivated_at (names_customer id x) at e)) d.customers);
  insert_meter =
      λ m d rows _ e. meters-IsHistory d _ (inserted meter_table same_meter m d.meters rows e);
  archive_meter = λ id at d. meters-IsHistory d _ (
      updated meter_table (λ m. names_meter id m && is_none m.archived_at)
        (λ m. record m { archived_at = some at })
        (λ x e. (refl, once x.archived_at (names_meter id x) at e)) d.meters);
  insert_feature = λ f d rows e.
      features-IsHistory d _ (inserted feature_table same_feature f d.features rows e);
  archive_feature = λ id at d. features-IsHistory d _ (
      updated feature_table (λ f. names_feature id f && is_none f.archived_at)
        (λ f. record f { archived_at = some at })
        (λ x e. (refl, once x.archived_at (names_feature id x) at e)) d.features);
  insert_plan = λ p d rows e. plans-IsHistory d _ (inserted plan_table same_plan p d.plans rows e);
  archive_plan = λ id at d. plans-IsHistory d _ (
      updated plan_table (λ p. names_plan id p && is_none p.archived_at)
        (λ p. record p { archived_at = some at })
        (λ x e. (refl, once x.archived_at (names_plan id x) at e)) d.plans);
  upsert_user = λ u d rows e. users-IsHistory d _ (upsert-Extends u d.users rows e);
  insert_entitlement = λ x d rows e.
      entitlements-IsHistory d _
        (inserted entitlement_table same_entitlement x d.entitlements rows e);
  delete_entitlement = λ c f at d. entitlements-IsHistory d _ (
      updated entitlement_table (is_active_for c f) (λ e. record e { deleted_at = some at })
        (λ x e. (refl, once x.deleted_at (x.customer_id == c && x.feature_id == f) at e))
        d.entitlements);
  reset_entitlement = λ id at d. entitlements-IsHistory d _ (
      updated entitlement_table (λ e. e.id == id) (λ e. record e { usage_period_anchor = some at })
        (λ x _. (refl, Once-refl x.deleted_at)) d.entitlements);
  insert_grant =
      λ g d rows _ e. grants-IsHistory d _ (inserted grant_table same_grant g d.grants rows e);
  void_grants = λ p at d. grants-IsHistory d _ (
      updated grant_table (λ g. p g && is_none g.voided_at) (λ g. record g { voided_at = some at })
        (λ x e. (refl, once x.voided_at (p x) at e)) d.grants);
  insert_subscription = λ s d rows e.
      subscriptions-IsHistory d _
        (inserted subscription_table same_subscription s d.subscriptions rows e);
  cancel_subscription = λ id at d. subscriptions-IsHistory d _ (
      updated subscription_table (λ s. s.id == id && is_none s.canceled_at) (cancel_row at)
        (λ x e. (refl, once x.canceled_at (x.id == id) at e, coalesce-Once x.ends_at at))
        d.subscriptions);
  set_plan = λ id plan d _. subscriptions-IsHistory d _ (
      updated subscription_table (λ s. s.id == id) (λ s. record s { plan_id = plan })
        (λ x _. (refl, Once-refl x.canceled_at, Once-refl x.ends_at)) d.subscriptions);
  ingest_event = λ x d. events-IsHistory d _ (
      Extends-insert_or_ignore (Change event_table) (Change-refl event_table) same_event x
        d.events);
  save_snapshot = λ x d. snapshots-IsHistory d _ (
      Extends-insert_or_ignore (Change snapshot_table) (Change-refl snapshot_table) same_snapshot x
        d.snapshots);
}
