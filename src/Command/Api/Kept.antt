-- ===== src/Command/Api/Kept.antt =====
-- The methods of the API against a relation that the writes of the store keep.
use metery.Prelude.{ℕ}
use metery.Ledger.Deduct.{Sorter}
use metery.Store.Db.{Env, Action}
use metery.Store.Db.Keeps.{Relation, Keeps, Keeps-pure, Keeps-bind}
use metery.Store.Writes.{Writes}
use metery.Service.Rpc.{RpcError, Codec}
use metery.Service.Kept.Catalog
use metery.Service.Kept.Entitlements
use metery.Service.Kept.Subscriptions
use metery.Command.Api.{
  Call, Answer, answer, dispatch, create_customer_call, get_customer_call, list_customers_call,
  update_customer_call, deactivate_customer_call, create_meter_call, get_meter_call,
  list_meters_call, archive_meter_call, create_feature_call, get_feature_call, list_features_call,
  archive_feature_call, create_entitlement_call, get_entitlement_call, list_entitlements_call,
  delete_entitlement_call, get_entitlement_value_call, reset_entitlement_call, create_grant_call,
  list_grants_call, void_grant_call, ingest_event_call, create_plan_call, get_plan_call,
  list_plans_call, archive_plan_call, create_subscription_call, get_subscription_call,
  list_subscriptions_call, cancel_subscription_call, change_subscription_call,
}

module _ (R : Relation) (writes : Writes R) (sorter : Sorter) {M : Type 0} (codec : Codec M)
    (fuel : ℕ) (env : Env) where
  Keeps-answer :
      {A : Type 0} (f : A → Answer M) {m : Action RpcError A} → Keeps R m → Keeps R (answer f m)
  Keeps-answer f k = Keeps-bind R k (λ a. Keeps-pure R (f a))

  pub dispatch-Keeps : (c : Call M) → Keeps R (dispatch sorter codec fuel env c)
  unfolding dispatch
  dispatch-Keeps (create_customer_call key name) =
      Keeps-answer _ (Catalog.create_customer-Keeps R writes env key name)
  dispatch-Keeps (get_customer_call id) = Keeps-answer _ (Catalog.get_customer-Keeps R id)
  dispatch-Keeps (list_customers_call req) = Keeps-answer _ (Catalog.list_customers-Keeps R req)
  dispatch-Keeps (update_customer_call id name) =
      Keeps-answer _ (Catalog.update_customer-Keeps R writes env id name)
  dispatch-Keeps (deactivate_customer_call id) =
      Keeps-answer _ (Catalog.deactivate_customer-Keeps R writes env id)
  dispatch-Keeps (create_meter_call req) =
      Keeps-answer _ (Catalog.create_meter-Keeps R writes env req)
  dispatch-Keeps (get_meter_call id) = Keeps-answer _ (Catalog.get_meter-Keeps R id)
  dispatch-Keeps (list_meters_call req) = Keeps-answer _ (Catalog.list_meters-Keeps R req)
  dispatch-Keeps (archive_meter_call id) =
      Keeps-answer _ (Catalog.archive_meter-Keeps R writes env id)
  dispatch-Keeps (create_feature_call req) =
      Keeps-answer _ (Catalog.create_feature-Keeps R writes env req)
  dispatch-Keeps (get_feature_call id) = Keeps-answer _ (Catalog.get_feature-Keeps R id)
  dispatch-Keeps (list_features_call req) = Keeps-answer _ (Catalog.list_features-Keeps R req)
  dispatch-Keeps (archive_feature_call id) =
      Keeps-answer _ (Catalog.archive_feature-Keeps R writes env id)
  dispatch-Keeps (create_entitlement_call req) =
      Keeps-answer _ (Entitlements.create_entitlement-Keeps R writes env req)
  dispatch-Keeps (get_entitlement_call req) =
      Keeps-answer _ (Entitlements.get_entitlement-Keeps R req)
  dispatch-Keeps (list_entitlements_call req) =
      Keeps-answer _ (Entitlements.list_entitlements-Keeps R req)
  dispatch-Keeps (delete_entitlement_call req) =
      Keeps-answer _ (Entitlements.delete_entitlement-Keeps R writes env req)
  dispatch-Keeps (get_entitlement_value_call req) =
      Keeps-answer _
        (Entitlements.get_entitlement_value-Keeps R env writes.save_snapshot sorter codec fuel req)
  dispatch-Keeps (reset_entitlement_call req) =
      Keeps-answer _ (Entitlements.reset_entitlement-Keeps R writes env req)
  dispatch-Keeps (create_grant_call req) =
      Keeps-answer _ (Entitlements.create_grant-Keeps R writes env codec req)
  dispatch-Keeps (list_grants_call req) =
      Keeps-answer _ (Entitlements.list_grants-Keeps R codec req)
  dispatch-Keeps (void_grant_call id) =
      Keeps-answer _ (Entitlements.void_grant-Keeps R writes env id)
  dispatch-Keeps (ingest_event_call req) =
      Keeps-answer _ (Entitlements.ingest_event-Keeps R writes env codec req)
  dispatch-Keeps (create_plan_call req) =
      Keeps-answer _ (Catalog.create_plan-Keeps R writes env codec req)
  dispatch-Keeps (get_plan_call id) = Keeps-answer _ (Catalog.get_plan-Keeps R codec id)
  dispatch-Keeps (list_plans_call req) = Keeps-answer _ (Catalog.list_plans-Keeps R codec req)
  dispatch-Keeps (archive_plan_call id) =
      Keeps-answer _ (Catalog.archive_plan-Keeps R writes env id)
  dispatch-Keeps (create_subscription_call req) =
      Keeps-answer _ (Subscriptions.create_subscription-Keeps R writes env codec req)
  dispatch-Keeps (get_subscription_call id) =
      Keeps-answer _ (Subscriptions.get_subscription-Keeps R codec id)
  dispatch-Keeps (list_subscriptions_call req) =
      Keeps-answer _ (Subscriptions.list_subscriptions-Keeps R codec req)
  dispatch-Keeps (cancel_subscription_call req) =
      Keeps-answer _ (Subscriptions.cancel_subscription-Keeps R writes env codec req)
  dispatch-Keeps (change_subscription_call req) =
      Keeps-answer _ (Subscriptions.change_subscription-Keeps R writes env codec req)
