-- ===== src/Service/Kept/Catalog.antt =====
-- internal/service/customer.go, meter.go, feature.go and plan.go against the writes of the store.
use Prim.Native.String.{◌++◌ as str_append}
use metery.Prelude.{pos, ◌==◌, Option, none, some, String, List, [], ◌∷◌, Bool-cases, inl, inr}
use metery.Store.Rows.{Feature as FeatureRow, PlanRow}
use metery.Store.Db.{Env}
use metery.Store.Db.Keeps.{
  Relation, Keeps, Keeps-pure, Keeps-or_fail, Keeps-bind, Keeps-seq, Keeps-new_ulid,
  Keeps-now_second, Keeps-read,
}
use metery.Store.Reads.{
  get_customer-Unchanged, list_customers-Unchanged, get_meter-Unchanged, list_meters-Unchanged,
  get_feature-Unchanged, list_features-Unchanged, get_plan-Unchanged, list_plans-Unchanged,
}
use metery.Store.Writes.{Writes}
use metery.Store.Writes.Single
use metery.Service.Rpc.{
  not_found, invalid_argument, refused, store_failed, internal, get_or, PlanEntry, Codec,
  plan_entries_to_json,
}
use metery.Service.Rpc.Keeps.{Keeps-or_nil, Keeps-or_else}
use metery.Service.Customers
use metery.Service.Features
use metery.Service.Plans

module _ (R : Relation) where
  pub check_features-Keeps : (entries : List PlanEntry) → Keeps R (Plans.check_features entries)
  unfolding Plans.check_features
  check_features-Keeps [] = Keeps-pure R tt
  check_features-Keeps (e ∷ es) =
      Keeps-seq R
        (Keeps-or_else R
          (λ x. refused invalid_argument (str_append "feature not found: " e.feature_slug))
          (Keeps-read R (get_feature-Unchanged e.feature_slug)))
        (check_features-Keeps es)

module _ (R : Relation) (writes : Writes R) (env : Env) where
  pub create_customer-Keeps : (key name : String) → Keeps R (Customers.create_customer env key name)
  unfolding Customers.create_customer
  create_customer-Keeps key name = Keeps-bind R (Keeps-new_ulid R env) (λ id.
      Keeps-bind R (Keeps-now_second R env) (λ created.
        Keeps-seq R (Keeps-or_else R store_failed (Single.create_customer-Keeps R writes _))
          (Keeps-pure R _)))

  pub update_customer-Keeps : (id name : String) → Keeps R (Customers.update_customer id name)
  unfolding Customers.update_customer
  update_customer-Keeps id name =
      Keeps-bind R
        (Keeps-or_else R (λ e. refused not_found "customer not found")
          (Single.update_customer-Keeps R writes id name))
        (λ c. Keeps-pure R _)

  pub deactivate_customer-Keeps : (id : String) → Keeps R (Customers.deactivate_customer env id)
  unfolding Customers.deactivate_customer
  deactivate_customer-Keeps id =
      Keeps-or_else R store_failed (Single.deactivate_customer-Keeps R writes env id)

  pub create_meter-Keeps :
      (req : Features.CreateMeterRequest) → Keeps R (Features.create_meter env req)
  unfolding Features.create_meter
  create_meter-Keeps req = Keeps-bind R (Keeps-new_ulid R env) (λ id.
      Keeps-bind R (Keeps-now_second R env) (λ created.
        Keeps-seq R (Keeps-or_else R store_failed (Single.create_meter-Keeps R writes _))
          (Keeps-pure R _)))

  pub archive_meter-Keeps : (id : String) → Keeps R (Features.archive_meter env id)
  unfolding Features.archive_meter
  archive_meter-Keeps id = Keeps-or_else R store_failed (Single.archive_meter-Keeps R writes env id)

  named_meter-Keeps : (slug : String) → Keeps R (Features.named_meter slug)
  unfolding Features.named_meter
  named_meter-Keeps slug = elim (Bool-cases (slug == "")) [
    | inl e ↦ rw (e, Features.named_meter) (Keeps-pure R none)
    | inr e ↦
        rw (e, Features.named_meter)
          (Keeps-bind R
            (Keeps-or_else R (λ e. refused invalid_argument "meter not found")
              (Keeps-read R (get_meter-Unchanged slug)))
            (λ m. Keeps-pure R (some m)))
  ]

  pub create_feature-Keeps :
      (req : Features.CreateFeatureRequest) → Keeps R (Features.create_feature env req)
  unfolding Features.create_feature
  create_feature-Keeps req = Keeps-bind R (named_meter-Keeps req.meter_slug) (λ m.
      Keeps-bind R (Keeps-new_ulid R env) (λ id. Keeps-bind R (Keeps-now_second R env) (λ created.
        Keeps-seq R (Keeps-or_else R store_failed (Single.create_feature-Keeps R writes _))
          (Keeps-pure R _))))

  pub archive_feature-Keeps : (id : String) → Keeps R (Features.archive_feature env id)
  unfolding Features.archive_feature
  archive_feature-Keeps id =
      Keeps-or_else R store_failed (Single.archive_feature-Keeps R writes env id)

  pub archive_plan-Keeps : (id : String) → Keeps R (Plans.archive_plan env id)
  unfolding Plans.archive_plan
  archive_plan-Keeps id = Keeps-or_else R store_failed (Single.archive_plan-Keeps R writes env id)

  pub create_plan-Keeps :
      {M : Type 0} (codec : Codec M) (req : Plans.CreatePlanRequest M)
      → Keeps R (Plans.create_plan codec env req)
  unfolding Plans.create_plan Plans.store_plan Plans.insert_plan
  create_plan-Keeps codec req = Keeps-seq R (check_features-Keeps R req.entries) (
      Keeps-bind R (Keeps-or_fail R (plan_entries_to_json codec req.entries) (internal "entries"))
        (λ entries. Keeps-bind R (Keeps-new_ulid R env) (λ id.
          Keeps-bind R (Keeps-now_second R env) (λ created.
            let p : PlanRow = Plans.new_plan codec req entries id created in
            Keeps-seq R (Keeps-or_else R store_failed (Single.create_plan-Keeps R writes p))
              (Keeps-or_fail R (Plans.plan_row_to_proto codec p) (internal "entries"))))))

-- The handlers that read.
module _ (R : Relation) where
  pub get_customer-Keeps : (id : String) → Keeps R (Customers.get_customer id)
  unfolding Customers.get_customer
  get_customer-Keeps id =
      Keeps-bind R
        (Keeps-or_else R Customers.not_found_or_internal (Keeps-read R (get_customer-Unchanged id)))
        (λ c. Keeps-pure R _)

  pub list_customers-Keeps :
      (req : Customers.ListCustomersRequest) → Keeps R (Customers.list_customers req)
  unfolding Customers.list_customers
  list_customers-Keeps req =
      Keeps-bind R
        (Keeps-or_else R store_failed (
          Keeps-read R
            (list_customers-Unchanged (Customers.customer_limit req.limit) (get_or req.after ""))))
        (λ cs. Keeps-pure R _)

  pub get_meter-Keeps : (id : String) → Keeps R (Features.get_meter id)
  unfolding Features.get_meter
  get_meter-Keeps id =
      Keeps-bind R
        (Keeps-or_else R (λ e. refused not_found "meter not found")
          (Keeps-read R (get_meter-Unchanged id)))
        (λ m. Keeps-pure R _)

  pub list_meters-Keeps : (req : Features.ListRequest) → Keeps R (Features.list_meters req)
  unfolding Features.list_meters
  list_meters-Keeps req =
      Keeps-bind R
        (Keeps-or_else R store_failed (
          Keeps-read R (
            list_meters-Unchanged req.include_archived (get_or req.limit (pos 100))
              (get_or req.after ""))))
        (λ ms. Keeps-pure R _)

  meter_slug_of-Keeps : (id : Option String) → Keeps R (Features.meter_slug_of id)
  unfolding Features.meter_slug_of
  meter_slug_of-Keeps none = Keeps-pure R ""
  meter_slug_of-Keeps (some id) =
      Keeps-bind R (Keeps-or_nil R (Keeps-read R (get_meter-Unchanged id))) (λ m. Keeps-pure R _)

  feature_to_proto-Keeps : (f : FeatureRow) → Keeps R (Features.feature_to_proto f)
  unfolding Features.feature_to_proto
  feature_to_proto-Keeps f = Keeps-bind R (meter_slug_of-Keeps f.meter_id) (λ s. Keeps-pure R _)

  pub get_feature-Keeps : (id : String) → Keeps R (Features.get_feature id)
  unfolding Features.get_feature
  get_feature-Keeps id =
      Keeps-bind R
        (Keeps-or_else R (λ e. refused not_found "feature not found")
          (Keeps-read R (get_feature-Unchanged id)))
        feature_to_proto-Keeps

  features_to_proto-Keeps : (fs : List FeatureRow) → Keeps R (Features.features_to_proto fs)
  unfolding Features.features_to_proto
  features_to_proto-Keeps [] = Keeps-pure R []
  features_to_proto-Keeps (f ∷ fs) =
      Keeps-bind R (feature_to_proto-Keeps f)
        (λ feature. Keeps-bind R (features_to_proto-Keeps fs) (λ rest. Keeps-pure R _))

  pub list_features-Keeps : (req : Features.ListRequest) → Keeps R (Features.list_features req)
  unfolding Features.list_features
  list_features-Keeps req =
      Keeps-bind R
        (Keeps-or_else R store_failed (
          Keeps-read R (
            list_features-Unchanged req.include_archived (get_or req.limit (pos 100))
              (get_or req.after ""))))
        features_to_proto-Keeps

  module _ {M : Type 0} (codec : Codec M) where
    pub get_plan-Keeps : (id : String) → Keeps R (Plans.get_plan codec id)
    unfolding Plans.get_plan
    get_plan-Keeps id =
        Keeps-bind R
          (Keeps-or_else R (λ e. refused not_found "plan not found")
            (Keeps-read R (get_plan-Unchanged id)))
          (λ p. Keeps-or_fail R _ (internal "entries"))

    pub list_plans-Keeps : (req : Plans.ListPlansRequest) → Keeps R (Plans.list_plans codec req)
    unfolding Plans.list_plans
    list_plans-Keeps req =
        Keeps-bind R
          (Keeps-or_else R store_failed (
            Keeps-read R (
              list_plans-Unchanged req.include_archived (get_or req.limit (pos 100))
                (get_or req.after ""))))
          (λ rows. Keeps-or_fail R _ (internal "entries"))
