-- ===== src/Store/Keys/Writes.antt =====
-- The writes of internal/store/store.go against the keys of the tables.
use metery.Prelude.{
  true, false, ◌&&◌, arith, ==_sym, some, List, [], ◌∷◌, any, ◌==◌, ◌≡◌, refl, sym, Bool-cases, inl,
  inr, some_inj, none≢some,
}
use metery.Store.Rows.{User}
use metery.Store.Table.{is_none, is_unique}
use metery.Store.Table.Update.{All-insert_row, All-update_where}
use metery.Store.Table.Unique.{
  insert_row-is_unique, insert_or_ignore-is_unique, update_where-is_unique,
}
use metery.Store.Constraints.{
  same_customer, same_meter, same_feature, same_plan, same_event, same_snapshot, same_user,
  is_aggregation,
}
use metery.Store.Catalog.{is_active_customer, names_meter, names_feature}
use metery.Store.Plans.{names_plan, upsert}
use metery.Store.Writes.{Writes}
use metery.Store.Keys.{stays_keyed}
use metery.Store.Valid.Conflicts.{same_snapshot_comm}
use metery.Store.Keys.Tables.{
  keys_comm, with_customers, with_meters, with_features, with_plans, with_users, with_events,
  with_snapshots, with_rest,
}

-- A user with a new id and a new Google account.
any-same_user :
    (u : User) (rows : List User)
    → any (λ r. u.id == r.id) rows ≡ false
    → any (λ r. r.google_id == u.google_id) rows ≡ false
    → any (same_user u) rows ≡ false
any-same_user u [] h k = refl
any-same_user u (r ∷ rows) h k =
    let rest = any-same_user u rows (ground (arith, h)) (ground (arith, k)) in
    ground (arith, rest, h, k, ==_sym r.google_id u.google_id)

-- An upsert changes no key, or adds a row with a new id and a new Google account.
upsert-is_unique :
    (u : User) (rows after : List User)
    → upsert u rows ≡ some after
    → is_unique same_user rows ≡ true
    → is_unique same_user after ≡ true
upsert-is_unique u rows after e h = elim (Bool-cases (any (λ r. r.google_id == u.google_id) rows)) [
  | inl there ↦ rw (sym (some_inj (rw there at e))) (
      update_where-is_unique same_user (λ r. r.google_id == u.google_id)
        (λ r. record r { email = u.email; name = u.name }) (λ a b _ e. e) (λ a b _ e. e) rows h)
  | inr new ↦ elim (Bool-cases (any (λ r. u.id == r.id) rows)) [
    | inl clash ↦ absurd (none≢some (rw (new, clash) at e))
    | inr apart ↦
        insert_row-is_unique same_user (λ a b. keys_comm a.id b.id a.google_id b.google_id) u rows
          after (rw (any-same_user u rows apart new) (rw (new, apart) at e)) h
  ]
]

pub stays_keyed-Writes : Writes stays_keyed
stays_keyed-Writes = record {
  insert_customer = λ c d rows e h. with_customers d h rows (
      insert_row-is_unique same_customer (λ a b. keys_comm a.id b.id a.key b.key) c d.customers rows
        e h.customers);
  rename_customer = λ id name d h. with_customers d h _ (
      update_where-is_unique same_customer (is_active_customer id) (λ c. record c { name = name })
        (λ a b _ e. e) (λ a b _ e. e) d.customers h.customers);
  deactivate_customer = λ id at d h. with_customers d h _ (
      update_where-is_unique same_customer (is_active_customer id)
        (λ c. record c { deactivated_at = some at }) (λ a b _ e. e) (λ a b _ e. e) d.customers
        h.customers);
  insert_meter = λ m d rows known e h.
      with_meters d h rows
        (insert_row-is_unique same_meter (λ a b. keys_comm a.id b.id a.slug b.slug) m d.meters rows
          e h.meters)
        (All-insert_row (λ m. is_aggregation m.aggregation ≡ true) same_meter m d.meters rows e
          known h.aggregations);
  archive_meter = λ id at d h.
      with_meters d h _
        (update_where-is_unique same_meter (λ m. names_meter id m && is_none m.archived_at)
          (λ m. record m { archived_at = some at }) (λ a b _ e. e) (λ a b _ e. e) d.meters h.meters)
        (All-update_where (λ m. is_aggregation m.aggregation ≡ true)
          (λ m. names_meter id m && is_none m.archived_at) (λ m. record m { archived_at = some at })
          (λ m k. k) d.meters h.aggregations);
  insert_feature = λ f d rows e h. with_features d h rows (
      insert_row-is_unique same_feature (λ a b. keys_comm a.id b.id a.slug b.slug) f d.features rows
        e h.features);
  archive_feature = λ id at d h. with_features d h _ (
      update_where-is_unique same_feature (λ f. names_feature id f && is_none f.archived_at)
        (λ f. record f { archived_at = some at }) (λ a b _ e. e) (λ a b _ e. e) d.features
        h.features);
  insert_plan = λ p d rows e h. with_plans d h rows (
      insert_row-is_unique same_plan (λ a b. keys_comm a.id b.id a.slug b.slug) p d.plans rows e
        h.plans);
  archive_plan = λ id at d h. with_plans d h _ (
      update_where-is_unique same_plan (λ p. names_plan id p && is_none p.archived_at)
        (λ p. record p { archived_at = some at }) (λ a b _ e. e) (λ a b _ e. e) d.plans h.plans);
  upsert_user = λ u d rows e h. with_users d h rows (upsert-is_unique u d.users rows e h.users);
  insert_entitlement = λ e d rows _ h. with_rest d h _ d.grants d.subscriptions;
  delete_entitlement = λ c f at d h. with_rest d h _ d.grants d.subscriptions;
  reset_entitlement = λ id at d h. with_rest d h _ d.grants d.subscriptions;
  insert_grant = λ g d rows _ _ h. with_rest d h d.entitlements _ d.subscriptions;
  void_grants = λ p at d h. with_rest d h d.entitlements _ d.subscriptions;
  insert_subscription = λ s d rows _ h. with_rest d h d.entitlements d.grants _;
  cancel_subscription = λ id at d h. with_rest d h d.entitlements d.grants _;
  set_plan = λ id plan d _ h. with_rest d h d.entitlements d.grants _;
  ingest_event = λ e d h.
      with_events d h _
        (insert_or_ignore-is_unique same_event (λ a b. ==_sym a.id b.id) e d.events h.events);
  save_snapshot = λ x d h.
      with_snapshots d h _
        (insert_or_ignore-is_unique same_snapshot same_snapshot_comm x d.snapshots h.snapshots);
}
