-- ===== src/Store/Writes/Actions.antt =====
-- The operations of internal/store/store.go that run several statements.
use mathlib.Core.Option
use metery.Prelude.{
  Option, none, some, String, List, [], ◌∷◌, ◌≡◌, sym, ap, subst, ◌∙◌, Option-cases, inl, inr,
  none≢some, some_inj,
}
use metery.Time.{Time}
use metery.Ledger.Types.{Snapshot}
use metery.Store.Rows.{
  EntitlementRow, SubscriptionRow, SubscriptionEntry, MaterializeGrant, GrantRow, SnapshotRow, User,
}
use metery.Store.Constraints.{same_snapshot}
use metery.Store.Table.{is_value, insert_or_ignore}
use metery.Store.Db.{Db, Env}
use metery.Store.Db.Keeps.{
  Relation, Keeps, Keeps-pure, Keeps-gets, Keeps-transaction, Keeps-bind, Keeps-seq, Keeps-modify,
  Keeps-try_modify, Keeps-new_ulid, Keeps-now, Keeps-read,
}
use metery.Store.Entitlements.{create_entitlement, create_grant}
use metery.Store.Snapshots.{save_snapshots, to_row}
use metery.Store.Plans.{upsert, upsert_user}
use metery.Store.Reads.{get_user_by_google_id-Unchanged}
use metery.Store.Subscriptions.{
  new_entitlement, new_grant, reuse_or_create, entitlement_for, grant_for, materialize_entries,
  create_subscription_with_materialize, cancel_subscription, change_subscription,
}
use metery.Store.Writes.{Writes}
use metery.Store.Writes.Single.{
  create_entitlement-Keeps, create_grant-Keeps, insert_subscription-Keeps, set_plan-Keeps,
}

-- Of the laws, the snapshots need the one on them.
module _ (R : Relation) (env : Env)
    (save : (x : SnapshotRow) (d : Db)
      → R.rel d (record d { snapshots = insert_or_ignore same_snapshot x d.snapshots })) where
  pub save_snapshots-Keeps :
      (snaps : List Snapshot) (id : String) → Keeps R (save_snapshots env snaps id)
  unfolding save_snapshots
  save_snapshots-Keeps [] id = Keeps-pure R tt
  save_snapshots-Keeps (s ∷ ss) id =
      Keeps-seq R (Keeps-modify R _ (save (to_row env id s))) (save_snapshots-Keeps ss id)

-- Of the laws, the entries of a plan need those on new entitlements and grants.
module _ (R : Relation) (make_entitlement : (e : EntitlementRow) → Keeps R (create_entitlement e))
    (make_grant : (g : GrantRow) → Keeps R (create_grant g)) (env : Env) where
  reuse_or_create-Keeps :
      (s : SubscriptionRow) (e : SubscriptionEntry) (found : Option EntitlementRow)
      → Keeps R (reuse_or_create env s e found)
  unfolding reuse_or_create create_entitlement
  reuse_or_create-Keeps s e (some row) = Keeps-pure R row.id
  reuse_or_create-Keeps s e none =
      Keeps-bind R (Keeps-new_ulid R env)
        (λ id. Keeps-seq R (make_entitlement (new_entitlement s e id)) (Keeps-pure R id))

  entitlement_for-Keeps :
      (s : SubscriptionRow) (e : SubscriptionEntry) → Keeps R (entitlement_for env s e)
  unfolding entitlement_for
  entitlement_for-Keeps s e = Keeps-bind R (Keeps-gets R _) (reuse_or_create-Keeps s e)

  pub grant_for-Keeps :
      (s : SubscriptionRow) (ent_id : String) (g : Option MaterializeGrant)
      → Keeps R (grant_for env s ent_id g)
  unfolding grant_for create_grant
  grant_for-Keeps s ent_id none = Keeps-pure R tt
  grant_for-Keeps s ent_id (some g) =
      Keeps-bind R (Keeps-new_ulid R env) (λ id. make_grant (new_grant s ent_id g id))

  pub materialize_entries-Keeps :
      (s : SubscriptionRow) (entries : List SubscriptionEntry)
      → Keeps R (materialize_entries env s entries)
  unfolding materialize_entries
  materialize_entries-Keeps s [] = Keeps-pure R tt
  materialize_entries-Keeps s (e ∷ es) =
      Keeps-bind R (entitlement_for-Keeps s e)
        (λ ent_id. Keeps-seq R (grant_for-Keeps s ent_id e.grant) (materialize_entries-Keeps s es))

module _ (R : Relation) (writes : Writes R) (env : Env) where
  pub create_subscription_with_materialize-Keeps :
      (s : SubscriptionRow) (entries : List SubscriptionEntry)
      → Keeps R (create_subscription_with_materialize env s entries)
  unfolding create_subscription_with_materialize
  create_subscription_with_materialize-Keeps s entries = Keeps-transaction R (
      Keeps-seq R (insert_subscription-Keeps R writes s) (
        materialize_entries-Keeps R (create_entitlement-Keeps R writes)
          (create_grant-Keeps R writes) env s entries))

  pub cancel_subscription-Keeps : (id : String) (at : Time) → Keeps R (cancel_subscription id at)
  unfolding cancel_subscription
  cancel_subscription-Keeps id at = Keeps-transaction R (
      Keeps-seq R (Keeps-modify R _ (writes.cancel_subscription id at))
        (Keeps-modify R _ (writes.void_grants (λ g. is_value g.subscription_id id) at)))

  pub change_subscription-Keeps :
      (s : SubscriptionRow) (plan : String) (at : Time) (entries : List SubscriptionEntry)
      → Keeps R (change_subscription env s plan at entries)
  unfolding change_subscription
  change_subscription-Keeps s plan at entries = Keeps-transaction R (
      Keeps-seq R (Keeps-modify R _ (writes.void_grants (λ g. is_value g.subscription_id s.id) at))
        (Keeps-seq R (set_plan-Keeps R writes s.id plan) (
          materialize_entries-Keeps R (create_entitlement-Keeps R writes)
            (create_grant-Keeps R writes) env (record s { plan_id = plan; starts_at = at })
            entries)))

  upsert-Keeps :
      (u : User) (d e : Db)
      → Option.map (λ rows. record d { users = rows }) (upsert u d.users) ≡ some e
      → R.rel d e
  upsert-Keeps u d e eq =
      let put : List User → Db = λ rows. record d { users = rows } in
      elim (Option-cases (upsert u d.users)) [
        | inl n ↦ absurd (none≢some (sym (ap (λ o. Option.map put o) n) ∙ eq))
        | inr (rows, r) ↦
            subst (λ x. R.rel d x) (some_inj (sym (ap (λ o. Option.map put o) r) ∙ eq))
              (writes.upsert_user u d rows r)
      ]

  pub upsert_user-Keeps :
      (google_id email name : String) → Keeps R (upsert_user env google_id email name)
  unfolding upsert_user
  upsert_user-Keeps google_id email name = Keeps-bind R (Keeps-new_ulid R env) (λ id.
      Keeps-bind R (Keeps-now R env) (λ at.
        Keeps-seq R
          (Keeps-try_modify R _ (
            upsert-Keeps (record {
              id = id;
              google_id = google_id;
              email = email;
              name = name;
              created_at = at;
            })))
          (Keeps-read R (get_user_by_google_id-Unchanged google_id))))
