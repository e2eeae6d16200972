-- ===== src/Store/Reads.antt =====
-- The reads of internal/store/store.go.
use metery.Prelude.{
  ℤ, pos, Bool, Option, none, some, String, List, [], ◌∷◌, filter, find?, ◌==◌, Option-cases, inl,
  inr, refl,
}
use metery.Time.{Time}
use metery.Store.Rows.{SubscriptionRow, SnapshotRow}
use metery.Store.Db.{Env, corrupt}
use metery.Store.Db.Keeps.{
  Unchanged, Keeps, Keeps-gets, Keeps-bind, Keeps-pure, Keeps-or_fail, Unchanged-found,
}
use metery.Store.Catalog.{
  get_customer, list_customers, get_meter, list_meters, get_feature, list_features,
}
use metery.Store.Entitlements.{
  get_entitlement, list_entitlements, list_grants, list_active_grants,
  get_latest_subscription_grant,
}
use metery.Store.Plans.{get_plan, list_plans, get_user_by_id, get_user_by_google_id}
use metery.Store.Snapshots.{decode_row, get_latest_snapshot}
use metery.Store.Subscriptions.{
  list_subscriptions, count_subscriptions_for_plan, get_subscription,
  has_active_subscription_for_plan, recurring_of, has_recurring_plan, list_recurring_subscriptions,
}

pub list_customers-Unchanged : (a : ℤ) (b : String) → Keeps Unchanged (list_customers a b)
unfolding list_customers
list_customers-Unchanged a b = Keeps-gets Unchanged _

pub list_meters-Unchanged : (a : Bool) (b : ℤ) (c : String) → Keeps Unchanged (list_meters a b c)
unfolding list_meters
list_meters-Unchanged a b c = Keeps-gets Unchanged _

pub list_features-Unchanged :
    (a : Bool) (b : ℤ) (c : String) → Keeps Unchanged (list_features a b c)
unfolding list_features
list_features-Unchanged a b c = Keeps-gets Unchanged _

pub list_plans-Unchanged : (a : Bool) (b : ℤ) (c : String) → Keeps Unchanged (list_plans a b c)
unfolding list_plans
list_plans-Unchanged a b c = Keeps-gets Unchanged _

pub list_subscriptions-Unchanged :
    (a : String) (b : String) (c : Bool) (d : ℤ) (e : String)
    → Keeps Unchanged (list_subscriptions a b c d e)
unfolding list_subscriptions
list_subscriptions-Unchanged a b c d e = Keeps-gets Unchanged _

pub list_entitlements-Unchanged :
    (a : String) (b : ℤ) (c : String) → Keeps Unchanged (list_entitlements a b c)
unfolding list_entitlements
list_entitlements-Unchanged a b c = Keeps-gets Unchanged _

pub list_grants-Unchanged :
    (a : String) (b : Bool) (c : ℤ) (d : String) → Keeps Unchanged (list_grants a b c d)
unfolding list_grants
list_grants-Unchanged a b c d = Keeps-gets Unchanged _

pub count_subscriptions_for_plan-Unchanged :
    (a : String) → Keeps Unchanged (count_subscriptions_for_plan a)
unfolding count_subscriptions_for_plan
count_subscriptions_for_plan-Unchanged a = Keeps-gets Unchanged _

pub get_customer-Unchanged : (id : String) → Keeps Unchanged (get_customer id)
unfolding get_customer
get_customer-Unchanged id = Unchanged-found _

pub get_meter-Unchanged : (id : String) → Keeps Unchanged (get_meter id)
unfolding get_meter
get_meter-Unchanged id = Unchanged-found _

pub get_feature-Unchanged : (id : String) → Keeps Unchanged (get_feature id)
unfolding get_feature
get_feature-Unchanged id = Unchanged-found _

pub get_plan-Unchanged : (id : String) → Keeps Unchanged (get_plan id)
unfolding get_plan
get_plan-Unchanged id = Unchanged-found _

pub get_user_by_id-Unchanged : (id : String) → Keeps Unchanged (get_user_by_id id)
unfolding get_user_by_id
get_user_by_id-Unchanged id = Unchanged-found _

pub get_user_by_google_id-Unchanged : (id : String) → Keeps Unchanged (get_user_by_google_id id)
unfolding get_user_by_google_id
get_user_by_google_id-Unchanged id = Unchanged-found _

pub get_entitlement-Unchanged : (c f : String) → Keeps Unchanged (get_entitlement c f)
unfolding get_entitlement
get_entitlement-Unchanged c f = Unchanged-found _

pub get_latest_subscription_grant-Unchanged :
    (s e : String) → Keeps Unchanged (get_latest_subscription_grant s e)
unfolding get_latest_subscription_grant
get_latest_subscription_grant-Unchanged s e = Unchanged-found _

pub list_active_grants-Unchanged : (id : String) → Keeps Unchanged (list_active_grants id)
unfolding list_active_grants
list_active_grants-Unchanged id = record {
  kept = λ w. elim (Option-cases (find? (λ e. e.id == id) w.db.entitlements)) [
    | inl n ↦ rw (n, list_active_grants) refl
    | inr (e, s) ↦ rw (s, list_active_grants) refl
  ];
}

decode_row-Unchanged : (env : Env) (row : Option SnapshotRow) → Keeps Unchanged (decode_row env row)
unfolding decode_row
decode_row-Unchanged env none = Keeps-pure Unchanged none
decode_row-Unchanged env (some r) =
    Keeps-bind Unchanged (Keeps-or_fail Unchanged (env.decode_states r.per_grant_state) corrupt)
      (λ state. Keeps-pure Unchanged _)

pub get_latest_snapshot-Unchanged :
    (env : Env) (id : String) (t : Time) → Keeps Unchanged (get_latest_snapshot env id t)
unfolding get_latest_snapshot
get_latest_snapshot-Unchanged env id t =
    Keeps-bind Unchanged (Keeps-gets Unchanged _) (decode_row-Unchanged env)

pub get_subscription-Unchanged : (id : String) → Keeps Unchanged (get_subscription id)
unfolding get_subscription
get_subscription-Unchanged id = Unchanged-found _

pub has_active_subscription_for_plan-Unchanged :
    (c p : String) → Keeps Unchanged (has_active_subscription_for_plan c p)
unfolding has_active_subscription_for_plan
has_active_subscription_for_plan-Unchanged c p = Keeps-gets Unchanged _

recurring_of-Unchanged : (subs : List SubscriptionRow) → Keeps Unchanged (recurring_of subs)
unfolding recurring_of
recurring_of-Unchanged [] = Keeps-pure Unchanged []
recurring_of-Unchanged (s ∷ ss) = Keeps-bind Unchanged (get_plan-Unchanged s.plan_id) (λ plan.
    Keeps-bind Unchanged (list_entitlements-Unchanged s.customer_id (pos 1000) "")
      (λ ents. Keeps-bind Unchanged (recurring_of-Unchanged ss) (λ rest. Keeps-pure Unchanged _)))

pub list_recurring_subscriptions-Unchanged : Keeps Unchanged list_recurring_subscriptions
unfolding list_recurring_subscriptions
list_recurring_subscriptions-Unchanged =
    Keeps-bind Unchanged
      (Keeps-gets Unchanged (λ db. filter (has_recurring_plan db.plans) db.subscriptions))
      recurring_of-Unchanged
