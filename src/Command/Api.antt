-- ===== src/Command/Api.antt =====
-- The methods of the API that `serve` of cmd/metery/main.go registers, each with its handler in
-- internal/service/.
pub mod Kept
use metery.Prelude.{ℕ, String, List}
use metery.Ledger.Deduct.{Sorter}
use metery.Store.Db.{Env, Action, ◌>>=◌, pure}
use metery.Service.Rpc.{RpcError, Codec}
use metery.Service.Customers
use metery.Service.Features
use metery.Service.Entitlements
use metery.Service.Grants
use metery.Service.Plans
use metery.Service.Subscriptions
use metery.Service.Subscriptions.Listing

-- A call of a method with its message.
pub data Call (M : Type 0) : Type 0 where
  create_customer_call : String → String → Call M
  get_customer_call : String → Call M
  list_customers_call : Customers.ListCustomersRequest → Call M
  update_customer_call : String → String → Call M
  deactivate_customer_call : String → Call M
  create_meter_call : Features.CreateMeterRequest → Call M
  get_meter_call : String → Call M
  list_meters_call : Features.ListRequest → Call M
  archive_meter_call : String → Call M
  create_feature_call : Features.CreateFeatureRequest → Call M
  get_feature_call : String → Call M
  list_features_call : Features.ListRequest → Call M
  archive_feature_call : String → Call M
  create_entitlement_call : Entitlements.CreateEntitlementRequest → Call M
  get_entitlement_call : Entitlements.EntitlementRequest → Call M
  list_entitlements_call : Entitlements.ListEntitlementsRequest → Call M
  delete_entitlement_call : Entitlements.EntitlementRequest → Call M
  get_entitlement_value_call : Entitlements.GetEntitlementValueRequest → Call M
  reset_entitlement_call : Entitlements.ResetEntitlementRequest → Call M
  create_grant_call : Grants.CreateGrantRequest M → Call M
  list_grants_call : Grants.ListGrantsRequest → Call M
  void_grant_call : String → Call M
  ingest_event_call : Grants.IngestEventRequest M → Call M
  create_plan_call : Plans.CreatePlanRequest M → Call M
  get_plan_call : String → Call M
  list_plans_call : Plans.ListPlansRequest → Call M
  archive_plan_call : String → Call M
  create_subscription_call : Subscriptions.CreateSubscriptionRequest M → Call M
  get_subscription_call : String → Call M
  list_subscriptions_call : Listing.ListSubscriptionsRequest → Call M
  cancel_subscription_call : Subscriptions.CancelSubscriptionRequest → Call M
  change_subscription_call : Subscriptions.ChangeSubscriptionRequest → Call M

-- The message that a method answers with.
pub data Answer (M : Type 0) : Type 0 where
  customer : Customers.Customer → Answer M
  customers : List Customers.Customer → Answer M
  meter : Features.Meter → Answer M
  meters : List Features.Meter → Answer M
  feature : Features.Feature → Answer M
  features : List Features.Feature → Answer M
  entitlement : Entitlements.Entitlement → Answer M
  entitlements : List Entitlements.Entitlement → Answer M
  value : Entitlements.EntitlementValue → Answer M
  grant : Grants.Grant M → Answer M
  grants : List (Grants.Grant M) → Answer M
  plan : Plans.Plan M → Answer M
  plans : List (Plans.Plan M) → Answer M
  subscription : Subscriptions.Subscription M → Answer M
  subscriptions : List (Subscriptions.Subscription M) → Answer M
  empty : Answer M

abbrev pub answer : {A M : Type 0} → (A → Answer M) → Action RpcError A → Action RpcError (Answer M)
answer f m = m >>= λ a. pure (f a)

module _ (sorter : Sorter) {M : Type 0} (codec : Codec M) (fuel : ℕ) (env : Env) where
  -- The handler of a method.
  unfoldable pub dispatch : Call M → Action RpcError (Answer M)
  dispatch (create_customer_call key name) =
      answer customer (Customers.create_customer env key name)
  dispatch (get_customer_call id) = answer customer (Customers.get_customer id)
  dispatch (list_customers_call req) = answer customers (Customers.list_customers req)
  dispatch (update_customer_call id name) = answer customer (Customers.update_customer id name)
  dispatch (deactivate_customer_call id) =
      answer (λ _. empty) (Customers.deactivate_customer env id)
  dispatch (create_meter_call req) = answer meter (Features.create_meter env req)
  dispatch (get_meter_call id) = answer meter (Features.get_meter id)
  dispatch (list_meters_call req) = answer meters (Features.list_meters req)
  dispatch (archive_meter_call id) = answer (λ _. empty) (Features.archive_meter env id)
  dispatch (create_feature_call req) = answer feature (Features.create_feature env req)
  dispatch (get_feature_call id) = answer feature (Features.get_feature id)
  dispatch (list_features_call req) = answer features (Features.list_features req)
  dispatch (archive_feature_call id) = answer (λ _. empty) (Features.archive_feature env id)
  dispatch (create_entitlement_call req) =
      answer entitlement (Entitlements.create_entitlement env req)
  dispatch (get_entitlement_call req) = answer entitlement (Entitlements.get_entitlement req)
  dispatch (list_entitlements_call req) = answer entitlements (Entitlements.list_entitlements req)
  dispatch (delete_entitlement_call req) =
      answer (λ _. empty) (Entitlements.delete_entitlement env req)
  dispatch (get_entitlement_value_call req) =
      answer value (Entitlements.get_entitlement_value sorter codec fuel env req)
  dispatch (reset_entitlement_call req) =
      answer (λ _. empty) (Entitlements.reset_entitlement env req)
  dispatch (create_grant_call req) = answer grant (Grants.create_grant codec env req)
  dispatch (list_grants_call req) = answer grants (Grants.list_grants codec req)
  dispatch (void_grant_call id) = answer (λ _. empty) (Grants.void_grant env id)
  dispatch (ingest_event_call req) = answer (λ _. empty) (Grants.ingest_event codec env req)
  dispatch (create_plan_call req) = answer plan (Plans.create_plan codec env req)
  dispatch (get_plan_call id) = answer plan (Plans.get_plan codec id)
  dispatch (list_plans_call req) = answer plans (Plans.list_plans codec req)
  dispatch (archive_plan_call id) = answer (λ _. empty) (Plans.archive_plan env id)
  dispatch (create_subscription_call req) =
      answer subscription (Subscriptions.create_subscription codec env req)
  dispatch (get_subscription_call id) =
      answer subscription (Subscriptions.get_subscription codec id)
  dispatch (list_subscriptions_call req) =
      answer subscriptions (Listing.list_subscriptions codec req)
  dispatch (cancel_subscription_call req) =
      answer (λ _. empty) (Subscriptions.cancel_subscription codec env req)
  dispatch (change_subscription_call req) =
      answer subscription (Subscriptions.change_subscription codec env req)
