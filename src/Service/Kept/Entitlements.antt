-- ===== src/Service/Kept/Entitlements.antt =====
-- internal/service/entitlement.go, grant.go and event.go against the writes of the store.
use metery.Prelude.{ℕ, ℤ, pos, Option, none, some, String, List, [], ◌∷◌}
use metery.Time.{Time}
use metery.Ledger.Types.{Snapshot, BalanceResult}
use metery.Ledger.Deduct.{Sorter}
use metery.Ledger.Balance.{calculate_balance}
use metery.Store.Rows.{Customer, Feature, Meter, EntitlementRow, SnapshotRow}
use metery.Store.Constraints.{same_snapshot}
use metery.Store.Table.{insert_or_ignore}
use metery.Store.Db.{Db, Env}
use metery.Store.Db.Keeps.{
  Relation, Keeps, Keeps-pure, Keeps-or_fail, Keeps-bind, Keeps-seq, Keeps-new_ulid,
  Keeps-now_second, Keeps-read,
}
use metery.Store.Reads.{
  get_customer-Unchanged, get_meter-Unchanged, get_feature-Unchanged, get_entitlement-Unchanged,
  list_entitlements-Unchanged, list_active_grants-Unchanged, get_latest_snapshot-Unchanged,
  list_grants-Unchanged,
}
use metery.Store.Writes.{Writes}
use metery.Store.Writes.Single
use metery.Store.Writes.Actions.{save_snapshots-Keeps}
use metery.Service.Rpc.{not_found, invalid_argument, refused, store_failed, hangs, get_or, Codec}
use metery.Service.Rpc.Keeps.{Keeps-or_nil, Keeps-or_else, Keeps-or_absent}
use metery.Service.Entitlements.{
  named_customer, named_feature, named_entitlement, entitlements_to_proto, entitlement_if_any,
  usage_reader, domain_ent, entitlement_value, metered_value, value_of, value_if_any,
}
use metery.Service.Entitlements
use metery.Service.Grants

module _ (R : Relation) where
  named_customer-Keeps : (id : String) → Keeps R (named_customer id)
  named_customer-Keeps id =
      Keeps-or_else R (λ e. refused not_found "customer not found")
        (Keeps-read R (get_customer-Unchanged id))

  named_feature-Keeps : (id : String) → Keeps R (named_feature id)
  named_feature-Keeps id =
      Keeps-or_else R (λ e. refused not_found "feature not found")
        (Keeps-read R (get_feature-Unchanged id))

  named_entitlement-Keeps : (c : Customer) (f : Feature) → Keeps R (named_entitlement c f)
  named_entitlement-Keeps c f =
      Keeps-or_else R (λ e. refused not_found "entitlement not found")
        (Keeps-read R (get_entitlement-Unchanged c.id f.id))

  pub get_entitlement-Keeps :
      (req : Entitlements.EntitlementRequest) → Keeps R (Entitlements.get_entitlement req)
  unfolding Entitlements.get_entitlement
  get_entitlement-Keeps req = Keeps-bind R (named_customer-Keeps req.customer_id_or_key) (λ c.
      Keeps-bind R (named_feature-Keeps req.feature_id_or_slug)
        (λ f. Keeps-bind R (named_entitlement-Keeps c f) (λ e. Keeps-pure R _)))

  entitlements_to_proto-Keeps :
      (key : String) (rows : List EntitlementRow) → Keeps R (entitlements_to_proto key rows)
  unfolding entitlements_to_proto
  entitlements_to_proto-Keeps key [] = Keeps-pure R []
  entitlements_to_proto-Keeps key (e ∷ es) =
      Keeps-bind R (Keeps-or_nil R (Keeps-read R (get_feature-Unchanged e.feature_id)))
        (λ f. Keeps-bind R (entitlements_to_proto-Keeps key es) (λ rest. Keeps-pure R _))

  pub list_entitlements-Keeps :
      (req : Entitlements.ListEntitlementsRequest) → Keeps R (Entitlements.list_entitlements req)
  unfolding Entitlements.list_entitlements
  list_entitlements-Keeps req = Keeps-bind R (named_customer-Keeps req.customer_id_or_key) (λ c.
      Keeps-bind R
        (Keeps-or_else R store_failed (
          Keeps-read R
            (list_entitlements-Unchanged c.id (get_or req.limit (pos 100)) (get_or req.after ""))))
        (entitlements_to_proto-Keeps c.key))

  pub list_grants-Keeps :
      {M : Type 0} (codec : Codec M) (req : Grants.ListGrantsRequest)
      → Keeps R (Grants.list_grants codec req)
  unfolding Grants.list_grants
  list_grants-Keeps codec req = Keeps-bind R (named_customer-Keeps req.customer_id_or_key) (λ c.
      Keeps-bind R (named_feature-Keeps req.feature_id_or_slug) (λ f.
        Keeps-bind R (named_entitlement-Keeps c f) (λ e.
          Keeps-bind R
            (Keeps-or_else R store_failed (
              Keeps-read R (
                list_grants-Unchanged e.id req.include_voided (get_or req.limit (pos 100))
                  (get_or req.after ""))))
            (λ gs. Keeps-pure R _))))

  expires_at-Keeps :
      {M : Type 0} (codec : Codec M) (from : Time) (text : Option String)
      → Keeps R (Grants.expires_at codec from text)
  unfolding Grants.expires_at
  expires_at-Keeps codec from none = Keeps-pure R none
  expires_at-Keeps codec from (some text) =
      Keeps-bind R
        (Keeps-or_fail R (codec.parse_duration text)
          (refused invalid_argument "invalid expiration duration format"))
        (λ dur. Keeps-pure R _)

module _ (R : Relation) (writes : Writes R) (env : Env) where
  pub create_entitlement-Keeps :
      (req : Entitlements.CreateEntitlementRequest)
      → Keeps R (Entitlements.create_entitlement env req)
  unfolding Entitlements.create_entitlement
  create_entitlement-Keeps req = Keeps-bind R (named_customer-Keeps R req.customer_id_or_key) (λ c.
      Keeps-bind R (named_feature-Keeps R req.feature_id_or_slug) (λ f.
        Keeps-bind R (Keeps-new_ulid R env) (λ id. Keeps-bind R (Keeps-now_second R env) (λ created.
          Keeps-seq R (Keeps-or_else R store_failed (Single.create_entitlement-Keeps R writes _))
            (Keeps-pure R _)))))

  pub delete_entitlement-Keeps :
      (req : Entitlements.EntitlementRequest) → Keeps R (Entitlements.delete_entitlement env req)
  unfolding Entitlements.delete_entitlement
  delete_entitlement-Keeps req = Keeps-bind R (named_customer-Keeps R req.customer_id_or_key) (λ c.
      Keeps-bind R (named_feature-Keeps R req.feature_id_or_slug) (λ f.
        Keeps-or_else R store_failed (Single.delete_entitlement-Keeps R writes env c.id f.id)))

  pub reset_entitlement-Keeps :
      (req : Entitlements.ResetEntitlementRequest)
      → Keeps R (Entitlements.reset_entitlement env req)
  unfolding Entitlements.reset_entitlement
  reset_entitlement-Keeps req = Keeps-bind R (named_customer-Keeps R req.customer_id_or_key) (λ c.
      Keeps-bind R (named_feature-Keeps R req.feature_id_or_slug) (λ f.
        Keeps-bind R (named_entitlement-Keeps R c f) (λ e.
          Keeps-bind R (Keeps-now_second R env) (λ default_at.
            Keeps-or_else R store_failed
              (Single.reset_entitlement-Keeps R writes e.id (get_or req.at default_at))))))

  pub void_grant-Keeps : (id : String) → Keeps R (Grants.void_grant env id)
  unfolding Grants.void_grant
  void_grant-Keeps id = Keeps-or_else R store_failed (Single.void_grant-Keeps R writes env id)

  module _ {M : Type 0} (codec : Codec M) where
    pub create_grant-Keeps :
        (req : Grants.CreateGrantRequest M) → Keeps R (Grants.create_grant codec env req)
    unfolding Grants.create_grant
    create_grant-Keeps req = Keeps-bind R (named_customer-Keeps R req.customer_id_or_key) (λ c.
        Keeps-bind R (named_feature-Keeps R req.feature_id_or_slug) (λ f.
          Keeps-bind R (named_entitlement-Keeps R c f) (λ e.
            Keeps-bind R (Keeps-now_second R env) (λ default_at.
              Keeps-bind R (Keeps-new_ulid R env) (λ id.
                Keeps-bind R (Keeps-now_second R env) (λ created.
                  Keeps-bind R
                    (expires_at-Keeps R codec (get_or req.effective_at default_at) req.expiration)
                    (λ exp.
                      Keeps-seq R
                        (Keeps-or_else R store_failed (Single.create_grant-Keeps R writes _))
                        (Keeps-pure R _))))))))

    pub ingest_event-Keeps :
        (req : Grants.IngestEventRequest M) → Keeps R (Grants.ingest_event codec env req)
    unfolding Grants.ingest_event
    ingest_event-Keeps req = Keeps-bind R (Keeps-now_second R env) (λ default_at.
        Keeps-bind R (Keeps-now_second R env)
          (λ created. Keeps-or_else R store_failed (Single.ingest_event-Keeps R writes _)))

-- Of the laws, the value of an entitlement needs the one on snapshots.
module _ (R : Relation) (env : Env)
    (save : (x : SnapshotRow) (d : Db)
      → R.rel d (record d { snapshots = insert_or_ignore same_snapshot x d.snapshots }))
    (sorter : Sorter) {M : Type 0} (codec : Codec M) (fuel : ℕ) where
  metered_value-Keeps :
      (c : Customer) (m : Meter) (e : EntitlementRow) (at : Option Time) (cost : Option ℤ)
      → Keeps R (metered_value sorter codec fuel env c m e at cost)
  unfolding metered_value usage_reader
  metered_value-Keeps c m e at cost =
      Keeps-bind R (Keeps-or_else R store_failed (Keeps-read R (list_active_grants-Unchanged e.id)))
        (λ grants. Keeps-bind R (Keeps-now_second R env) (λ default_at.
          Keeps-bind R (usage_reader-Keeps c m) (λ usage.
            Keeps-bind R
              (Keeps-or_nil R
                (Keeps-read R (get_latest_snapshot-Unchanged env e.id (get_or at default_at))))
              (λ seed.
                Keeps-bind R
                  (Keeps-or_fail R
                    (calculate_balance sorter codec.parse_duration fuel (get_or at default_at)
                      (domain_ent e) grants usage (get_or seed none))
                    hangs)
                  (λ (answer : BalanceResult × List Snapshot).
                    Keeps-bind R (Keeps-or_nil R (save_snapshots-Keeps R env save answer.1 e.id))
                      (λ saved. Keeps-pure R (entitlement_value cost answer.0)))))))
    where
      usage_reader-Keeps : (c : Customer) (m : Meter) → Keeps R (usage_reader env c m)
      usage_reader-Keeps c m = record { kept = λ w. R.rel_refl w.db }

  value_of-Keeps :
      (c : Customer) (e : EntitlementRow) (at : Option Time) (cost : Option ℤ) (id : Option String)
      → Keeps R (value_of sorter codec fuel env c e at cost id)
  unfolding value_of
  value_of-Keeps c e at cost none = Keeps-pure R _
  value_of-Keeps c e at cost (some id) =
      Keeps-bind R (Keeps-or_else R store_failed (Keeps-read R (get_meter-Unchanged id)))
        (λ m. metered_value-Keeps c m e at cost)

  value_if_any-Keeps :
      (c : Customer) (f : Feature) (at : Option Time) (cost : Option ℤ)
      (found : Option EntitlementRow)
      → Keeps R (value_if_any sorter codec fuel env c f at cost found)
  unfolding value_if_any
  value_if_any-Keeps c f at cost none = Keeps-pure R _
  value_if_any-Keeps c f at cost (some e) = value_of-Keeps c e at cost f.meter_id

  pub get_entitlement_value-Keeps :
      (req : Entitlements.GetEntitlementValueRequest)
      → Keeps R (Entitlements.get_entitlement_value sorter codec fuel env req)
  unfolding Entitlements.get_entitlement_value entitlement_if_any
  get_entitlement_value-Keeps req =
      Keeps-bind R (named_customer-Keeps R req.customer_id_or_key) (λ c.
        Keeps-bind R (named_feature-Keeps R req.feature_id_or_slug) (λ f.
          Keeps-bind R (Keeps-or_absent R (Keeps-read R (get_entitlement-Unchanged c.id f.id)))
            (value_if_any-Keeps c f req.at req.cost)))
