-- ===== src/Store/Writes/Single.antt =====
-- The operations of internal/store/store.go that write with one statement.
use metery.Prelude.{ltb_ℤ, pos, ◌==◌, String, subst, Bool-cases, inl, inr, none≢some, some_inj}
use metery.Time.{Time}
use metery.Store.Rows.{
  Customer, Meter, Feature, EntitlementRow, GrantRow, Event, PlanRow, SubscriptionRow,
}
use metery.Store.Table.{update_where, is_unique}
use metery.Store.Constraints.{
  same_customer, same_meter, same_feature, same_plan, same_entitlement, same_grant,
  same_subscription, is_aggregation,
}
use metery.Store.Db.{Env}
use metery.Store.Db.Inserts.{inserted, Keeps-insert}
use metery.Store.Db.Keeps.{
  Relation, Keeps, Keeps-bind, Keeps-seq, Keeps-modify, Keeps-try_modify, Keeps-now_second,
  Keeps-read,
}
use metery.Store.Reads.{get_customer-Unchanged}
use metery.Store.Catalog.{
  create_customer, update_customer, deactivate_customer, create_meter, archive_meter,
  create_feature, archive_feature,
}
use metery.Store.Plans.{create_plan, archive_plan}
use metery.Store.Entitlements.{
  stored_entitlement, stored_grant, add_grant, create_entitlement, delete_entitlement,
  reset_entitlement, create_grant, void_grant,
}
use metery.Store.Usage.{stored_event, ingest_event}
use metery.Store.Subscriptions.{insert_subscription, set_plan}
use metery.Store.Catalog.{stored_customer, stored_meter, stored_feature}
use metery.Store.Plans.{stored_plan}
use metery.Store.Writes.{Writes}

module _ (R : Relation) (writes : Writes R) where
  pub create_customer-Keeps : (c : Customer) → Keeps R (create_customer c)
  unfolding create_customer
  create_customer-Keeps c =
      Keeps-insert R same_customer (stored_customer c) (λ d. d.customers) _
        (writes.insert_customer (stored_customer c))

  pub update_customer-Keeps : (id name : String) → Keeps R (update_customer id name)
  unfolding update_customer
  update_customer-Keeps id name =
      Keeps-seq R (Keeps-modify R _ (writes.rename_customer id name))
        (Keeps-read R (get_customer-Unchanged id))

  pub create_meter-Keeps : (m : Meter) → Keeps R (create_meter m)
  unfolding create_meter
  create_meter-Keeps m = Keeps-try_modify R _ (λ d d' e.
      elim (Bool-cases (is_aggregation m.aggregation)) [
        | inr unknown ↦ absurd (none≢some (rw unknown at e))
        | inl known ↦
            let (after, r, same) =
              inserted same_meter (stored_meter m) d.meters (λ rows. record d { meters = rows }) d'
                (rw known at e) in
            subst (λ x. R.rel d x) same (writes.insert_meter (stored_meter m) d after known r)
      ])

  pub create_feature-Keeps : (f : Feature) → Keeps R (create_feature f)
  unfolding create_feature
  create_feature-Keeps f =
      Keeps-insert R same_feature (stored_feature f) (λ d. d.features) _
        (writes.insert_feature (stored_feature f))

  pub create_plan-Keeps : (p : PlanRow) → Keeps R (create_plan p)
  unfolding create_plan
  create_plan-Keeps p =
      Keeps-insert R same_plan (stored_plan p) (λ d. d.plans) _ (writes.insert_plan (stored_plan p))

  pub create_entitlement-Keeps : (e : EntitlementRow) → Keeps R (create_entitlement e)
  unfolding create_entitlement
  create_entitlement-Keeps e =
      Keeps-insert R same_entitlement (stored_entitlement e) (λ d. d.entitlements) _
        (writes.insert_entitlement (stored_entitlement e))

  pub reset_entitlement-Keeps : (id : String) (at : Time) → Keeps R (reset_entitlement id at)
  unfolding reset_entitlement
  reset_entitlement-Keeps id at = Keeps-modify R _ (writes.reset_entitlement id at)

  pub create_grant-Keeps : (g : GrantRow) → Keeps R (create_grant g)
  unfolding create_grant
  create_grant-Keeps g = Keeps-try_modify R (add_grant g) (λ d d' e.
      elim (Bool-cases (ltb_ℤ (pos 0) g.amount)) [
        | inr low ↦ absurd (none≢some (rw low at e))
        | inl high ↦
            let (after, r, same) =
              inserted same_grant (stored_grant g) d.grants (λ rows. record d { grants = rows }) d'
                (rw high at e) in
            subst (λ x. R.rel d x) same (writes.insert_grant (stored_grant g) d after high r)
      ])

  pub insert_subscription-Keeps : (s : SubscriptionRow) → Keeps R (insert_subscription s)
  unfolding insert_subscription
  insert_subscription-Keeps s =
      Keeps-insert R same_subscription s (λ d. d.subscriptions) _ (writes.insert_subscription s)

  pub set_plan-Keeps : (id plan : String) → Keeps R (set_plan id plan)
  unfolding set_plan
  set_plan-Keeps id plan = Keeps-try_modify R _ (λ d d' e.
      let rows =
        update_where (λ s. s.id == id) (λ s. record s { plan_id = plan }) d.subscriptions in
      elim (Bool-cases (is_unique same_subscription rows)) [
        | inr clash ↦ absurd (none≢some (rw clash at e))
        | inl apart ↦
            subst (λ x. R.rel d x) (some_inj (rw apart at e)) (writes.set_plan id plan d apart)
      ])

  pub ingest_event-Keeps : (e : Event) → Keeps R (ingest_event e)
  unfolding ingest_event
  ingest_event-Keeps e = Keeps-modify R _ (writes.ingest_event (stored_event e))

  -- The operations that read the clock first.
  module _ (env : Env) where
    pub deactivate_customer-Keeps : (id : String) → Keeps R (deactivate_customer env id)
    unfolding deactivate_customer
    deactivate_customer-Keeps id =
        Keeps-bind R (Keeps-now_second R env)
          (λ at. Keeps-modify R _ (writes.deactivate_customer id at))

    pub archive_meter-Keeps : (id : String) → Keeps R (archive_meter env id)
    unfolding archive_meter
    archive_meter-Keeps id =
        Keeps-bind R (Keeps-now_second R env) (λ at. Keeps-modify R _ (writes.archive_meter id at))

    pub archive_feature-Keeps : (id : String) → Keeps R (archive_feature env id)
    unfolding archive_feature
    archive_feature-Keeps id =
        Keeps-bind R (Keeps-now_second R env)
          (λ at. Keeps-modify R _ (writes.archive_feature id at))

    pub archive_plan-Keeps : (id : String) → Keeps R (archive_plan env id)
    unfolding archive_plan
    archive_plan-Keeps id =
        Keeps-bind R (Keeps-now_second R env) (λ at. Keeps-modify R _ (writes.archive_plan id at))

    pub delete_entitlement-Keeps : (c f : String) → Keeps R (delete_entitlement env c f)
    unfolding delete_entitlement
    delete_entitlement-Keeps c f =
        Keeps-bind R (Keeps-now_second R env)
          (λ at. Keeps-modify R _ (writes.delete_entitlement c f at))

    pub void_grant-Keeps : (id : String) → Keeps R (void_grant env id)
    unfolding void_grant
    void_grant-Keeps id =
        Keeps-bind R (Keeps-now_second R env)
          (λ at. Keeps-modify R _ (writes.void_grants (λ g. g.id == id) at))
