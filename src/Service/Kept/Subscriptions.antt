-- ===== src/Service/Kept/Subscriptions.antt =====
-- internal/service/subscription.go against the writes of the store.
use Prim.Native.String.{◌++◌ as str_append}
use metery.Prelude.{
  pos, not, ◌==◌, true, false, Bool, Option, none, some, String, List, [], ◌∷◌, Bool-cases,
  Option-cases, inl, inr,
}
use metery.Time.{Time}
use metery.Store.Rows.{Feature, PlanRow, SubscriptionRow}
use metery.Store.Table.{is_none}
use metery.Store.Db.{Env}
use metery.Store.Db.Keeps.{
  Relation, Keeps, Keeps-pure, Keeps-or_fail, Keeps-bind, Keeps-seq, Keeps-new_ulid,
  Keeps-now_second, Keeps-read,
}
use metery.Store.Reads.{
  get_customer-Unchanged, get_feature-Unchanged, get_plan-Unchanged, get_subscription-Unchanged,
  has_active_subscription_for_plan-Unchanged, list_subscriptions-Unchanged,
}
use metery.Store.Plans.{get_plan}
use metery.Store.Writes.{Writes}
use metery.Store.Writes.Actions
use metery.Service.Rpc.{
  Code, not_found, failed_precondition, already_exists, invalid_argument, refused, store_failed,
  internal, or_refuse, refuse_if, get_or, PlanEntry, Codec, plan_entries_from_json,
}
use metery.Service.Rpc.Keeps.{Keeps-or_nil, Keeps-or_else}
use metery.Service.Subscriptions
use metery.Service.Subscriptions.Listing

module _ (R : Relation) where
  refuse_if-Keeps :
      (test : Bool) (code : Code) (message : String) → Keeps R (refuse_if test code message)
  refuse_if-Keeps true code message = record { kept = λ w. R.rel_refl w.db }
  refuse_if-Keeps false code message = Keeps-pure R tt

  named_plan-Keeps : (id : String) → Keeps R (or_refuse (get_plan id) not_found "plan not found")
  named_plan-Keeps id =
      Keeps-or_else R (λ e. refused not_found "plan not found")
        (Keeps-read R (get_plan-Unchanged id))

  key_for-Keeps :
      (known : List (String × String)) (id : String) → Keeps R (Listing.key_for known id)
  unfolding Listing.key_for
  key_for-Keeps known id = elim (Option-cases (Listing.cached known id)) [
    | inl n ↦
        rw (n, Listing.key_for)
          (Keeps-bind R (Keeps-or_nil R (Keeps-read R (get_customer-Unchanged id)))
            (λ c. Keeps-pure R (Subscriptions.key_of c)))
    | inr (key, e) ↦ rw (e, Listing.key_for) (Keeps-pure R key)
  ]

  slug_for-Keeps :
      (known : List (String × String)) (id : String) → Keeps R (Listing.slug_for known id)
  unfolding Listing.slug_for
  slug_for-Keeps known id = elim (Option-cases (Listing.cached known id)) [
    | inl n ↦
        rw (n, Listing.slug_for)
          (Keeps-bind R (Keeps-or_nil R (Keeps-read R (get_plan-Unchanged id)))
            (λ p. Keeps-pure R (Subscriptions.slug_of p)))
    | inr (slug, e) ↦ rw (e, Listing.slug_for) (Keeps-pure R slug)
  ]

  customer_scope-Keeps : (id : String) → Keeps R (Listing.customer_scope id)
  unfolding Listing.customer_scope
  customer_scope-Keeps id = elim (Bool-cases (id == "")) [
    | inl e ↦ rw (e, Listing.customer_scope) (Keeps-pure R ("", ""))
    | inr e ↦
        rw (e, Listing.customer_scope)
          (Keeps-bind R
            (Keeps-or_else R (λ e. refused not_found "customer not found")
              (Keeps-read R (get_customer-Unchanged id)))
            (λ c. Keeps-pure R (c.id, c.key)))
  ]

  module _ {M : Type 0} (codec : Codec M) where
    subscriptions_to_proto-Keeps :
        (keys slugs : List (String × String)) (rows : List SubscriptionRow)
        → Keeps R (Listing.subscriptions_to_proto codec keys slugs rows)
    unfolding Listing.subscriptions_to_proto
    subscriptions_to_proto-Keeps keys slugs [] = Keeps-pure R []
    subscriptions_to_proto-Keeps keys slugs (r ∷ rows) =
        Keeps-bind R (key_for-Keeps keys r.customer_id) (λ key.
          Keeps-bind R (slug_for-Keeps slugs r.plan_id) (λ slug.
            Keeps-bind R
              (subscriptions_to_proto-Keeps ((r.customer_id, key) ∷ keys)
                ((r.plan_id, slug) ∷ slugs) rows)
              (λ rest. Keeps-pure R _)))

    pub list_subscriptions-Keeps :
        (req : Listing.ListSubscriptionsRequest) → Keeps R (Listing.list_subscriptions codec req)
    unfolding Listing.list_subscriptions
    list_subscriptions-Keeps req =
        Keeps-bind R (customer_scope-Keeps (get_or req.customer_id_or_key "")) (λ scope.
          Keeps-bind R
            (Keeps-or_else R store_failed (
              Keeps-read R (
                list_subscriptions-Unchanged scope.0 "" req.include_canceled
                  (get_or req.limit (pos 100)) (get_or req.after ""))))
            (subscriptions_to_proto-Keeps (scope ∷ []) []))

    pub get_subscription-Keeps : (id : String) → Keeps R (Subscriptions.get_subscription codec id)
    unfolding Subscriptions.get_subscription
    get_subscription-Keeps id =
        Keeps-bind R
          (Keeps-or_else R (λ e. refused not_found "subscription not found")
            (Keeps-read R (get_subscription-Unchanged id)))
          (λ sub.
            Keeps-bind R (Keeps-or_nil R (Keeps-read R (get_customer-Unchanged sub.customer_id)))
              (λ c.
                Keeps-bind R (Keeps-or_nil R (Keeps-read R (get_plan-Unchanged sub.plan_id)))
                  (λ p. Keeps-pure R _)))

    expiry_of-Keeps :
        (from : Time) (text : Option String) → Keeps R (Subscriptions.expiry_of codec from text)
    unfolding Subscriptions.expiry_of
    expiry_of-Keeps from none = Keeps-pure R none
    expiry_of-Keeps from (some text) =
        Keeps-bind R
          (Keeps-or_fail R (codec.parse_duration text)
            (refused invalid_argument "invalid expiration duration"))
          (λ dur. Keeps-pure R _)

    grant_of-Keeps :
        (feat : Feature) (from : Time) (pe : PlanEntry)
        → Keeps R (Subscriptions.grant_of codec feat from pe)
    unfolding Subscriptions.grant_of
    grant_of-Keeps feat from pe = elim (Option-cases pe.grant) [
      | inl n ↦ rw (n, Subscriptions.grant_of) (Keeps-pure R none)
      | inr (g, e) ↦
          rw (e, Subscriptions.grant_of)
            (Keeps-seq R
              (refuse_if-Keeps (is_none feat.meter_id) failed_precondition
                (str_append "plan entry has grant template for boolean feature: " pe.feature_slug))
              (Keeps-bind R (expiry_of-Keeps from g.expiration) (λ exp. Keeps-pure R _)))
    ]

    build_entries-Keeps :
        (from : Time) (pes : List PlanEntry) → Keeps R (Subscriptions.build_entries codec from pes)
    unfolding Subscriptions.build_entries
    build_entries-Keeps from [] = Keeps-pure R []
    build_entries-Keeps from (pe ∷ pes) =
        Keeps-bind R
          (Keeps-or_else R
            (λ e. refused failed_precondition (str_append "feature not found: " pe.feature_slug))
            (Keeps-read R (get_feature-Unchanged pe.feature_slug)))
          (λ feat.
            Keeps-bind R (grant_of-Keeps feat from pe)
              (λ grant. Keeps-bind R (build_entries-Keeps from pes) (λ rest. Keeps-pure R _)))

    build_subscription_entries-Keeps :
        (p : PlanRow) (from : Time)
        → Keeps R (Subscriptions.build_subscription_entries codec p from)
    unfolding Subscriptions.build_subscription_entries
    build_subscription_entries-Keeps p from =
        Keeps-bind R
          (Keeps-or_fail R (plan_entries_from_json codec p.entries)
            (internal "plan entries corrupt"))
          (build_entries-Keeps from)

module _ (R : Relation) (writes : Writes R) (env : Env) {M : Type 0} (codec : Codec M) where
  pub create_subscription-Keeps :
      (req : Subscriptions.CreateSubscriptionRequest M)
      → Keeps R (Subscriptions.create_subscription codec env req)
  unfolding Subscriptions.create_subscription
  create_subscription-Keeps req =
      Keeps-bind R
        (Keeps-or_else R (λ e. refused not_found "customer not found")
          (Keeps-read R (get_customer-Unchanged req.customer_id_or_key)))
        (λ c. Keeps-bind R (named_plan-Keeps R req.plan_id_or_slug) (λ p.
          Keeps-seq R
            (refuse_if-Keeps R (not (is_none p.archived_at)) failed_precondition "plan is archived")
            (Keeps-bind R
              (Keeps-or_else R store_failed
                (Keeps-read R (has_active_subscription_for_plan-Unchanged c.id p.id)))
              (λ dup.
                Keeps-seq R
                  (refuse_if-Keeps R dup already_exists
                    "customer already has an active subscription to this plan")
                  (Keeps-bind R (Keeps-now_second R env) (λ default_start.
                    Keeps-bind R (Keeps-new_ulid R env) (λ id.
                      Keeps-bind R (Keeps-now_second R env) (λ created.
                        Keeps-bind R
                          (build_subscription_entries-Keeps R codec p
                            (get_or req.starts_at default_start))
                          (λ entries.
                            Keeps-seq R
                              (Keeps-or_else R store_failed (
                                Actions.create_subscription_with_materialize-Keeps R writes env _
                                  entries))
                              (Keeps-pure R _))))))))))

  pub cancel_subscription-Keeps :
      (req : Subscriptions.CancelSubscriptionRequest)
      → Keeps R (Subscriptions.cancel_subscription codec env req)
  unfolding Subscriptions.cancel_subscription
  cancel_subscription-Keeps req = Keeps-bind R (Keeps-now_second R env) (λ default_at.
      Keeps-or_else R store_failed
        (Actions.cancel_subscription-Keeps R writes env req.id (get_or req.at default_at)))

  pub change_subscription-Keeps :
      (req : Subscriptions.ChangeSubscriptionRequest)
      → Keeps R (Subscriptions.change_subscription codec env req)
  unfolding Subscriptions.change_subscription
  change_subscription-Keeps req =
      Keeps-bind R
        (Keeps-or_else R (λ e. refused not_found "subscription not found")
          (Keeps-read R (get_subscription-Unchanged req.id)))
        (λ sub.
          Keeps-seq R
            (refuse_if-Keeps R (not (is_none sub.canceled_at)) failed_precondition
              "subscription is cancelled")
            (Keeps-bind R (named_plan-Keeps R req.plan_id_or_slug) (λ new_plan.
              Keeps-seq R
                (refuse_if-Keeps R (not (is_none new_plan.archived_at)) failed_precondition
                  "plan is archived")
                (Keeps-bind R (Keeps-now_second R env) (λ default_at.
                  Keeps-bind R
                    (build_subscription_entries-Keeps R codec new_plan
                      (get_or req.effective_at default_at))
                    (λ entries.
                      Keeps-seq R
                        (Keeps-or_else R store_failed (
                          Actions.change_subscription-Keeps R writes env sub new_plan.id
                            (get_or req.effective_at default_at) entries))
                        (Keeps-bind R
                          (Keeps-or_else R store_failed
                            (Keeps-read R (get_subscription-Unchanged sub.id)))
                          (λ updated.
                            Keeps-bind R
                              (Keeps-or_nil R
                                (Keeps-read R (get_customer-Unchanged updated.customer_id)))
                              (λ c. Keeps-pure R _)))))))))
