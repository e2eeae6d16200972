-- ===== src/Web/Console/Viewer.antt =====
-- For whom the pages of the console are made.
use metery.Prelude.{
  Option, none, some, String, List, [], ◌∷◌, ◌==◌, ◌≡◌, ◌⊎◌, inl, inr, refl, Bool-cases,
}
use metery.Store.Rows.{User, Customer, Meter, Feature, PlanRow, EntitlementRow}
use metery.Store.Db.{Env, StoreError, Action, ◌>>=◌, pure}
use metery.Store.Db.Keeps.{Unchanged, Keeps}
use metery.Service.Rpc.{or_nil}
use metery.Web.{Handler}
use metery.Web.Pages.{
  Display, Page, login_html, http_not_found, index_html, meters_html, features_html, customers_html,
  customer_detail_html, meter_detail_html, feature_detail_html, plans_html, plan_detail_html,
  subscriptions_html,
}
use metery.Web.Catalog.{
  overview, meters_page, meter_page, meter_detail, features_page, meter_if_any, feature_page,
  feature_detail,
}
use metery.Web.Customers.{customers_page, entitlement_views, customer_page, customer_detail}
use metery.Web.Plans.{plans_page, plan_page, plan_detail}
use metery.Web.Subscriptions.{plan_filter, filter_of, subscriptions_page}
use metery.Web.Console.{
  Route, root_path, meters_path, features_path, customers_path, plans_path, meter_path,
  feature_path, customer_path, plan_path, subscriptions_path, page_of,
}
use metery.Store.Reads.{
  list_customers-Unchanged, list_meters-Unchanged, list_features-Unchanged, list_plans-Unchanged,
  list_subscriptions-Unchanged, list_entitlements-Unchanged, list_grants-Unchanged,
  count_subscriptions_for_plan-Unchanged, get_customer-Unchanged, get_meter-Unchanged,
  get_feature-Unchanged, get_plan-Unchanged,
}
use metery.Web.Console.Answers.{
  Answers, Any, Answers-pure, Answers-or_nil, Answers-then, now-Answers,
}

-- The user that a page is made for, if it is.
unfoldable pub viewer : Page → Option User
viewer login_html = none
viewer http_not_found = none
viewer (index_html d) = some d.layout.user
viewer (meters_html d) = some d.layout.user
viewer (features_html d) = some d.layout.user
viewer (customers_html d) = some d.layout.user
viewer (customer_detail_html d) = some d.layout.user
viewer (meter_detail_html d) = some d.layout.user
viewer (feature_detail_html d) = some d.layout.user
viewer (plans_html d) = some d.layout.user
viewer (plan_detail_html d) = some d.layout.user
viewer (subscriptions_html d) = some d.layout.user

-- The page is made for the user, or says that there is no such page.
abbrev pub IsFor : User → Page → Type 0
IsFor u p = (viewer p ≡ some u) ⊎ (p ≡ http_not_found)

module _ (u : User) where
  page : (p : Page) → viewer p ≡ some u → Answers (IsFor u) (pure p)
  page p h = Answers-pure (IsFor u) p (inl h)

  missing : Answers (IsFor u) (pure http_not_found)
  missing = Answers-pure (IsFor u) http_not_found (inr refl)

  -- What is read goes to a page.
  reading :
      {A : Type 0} {m : Action StoreError A} {k : Option A → Handler}
      → Keeps Unchanged m
      → ((o : Option A) → Answers (IsFor u) (k o))
      → Answers (IsFor u) (or_nil m >>= k)
  reading {m = m} r h = Answers-then (Answers-or_nil m r) h

  overview-Answers : Answers (IsFor u) (overview u)
  unfolding overview viewer
  overview-Answers = reading (list_customers-Unchanged _ _) (λ cs.
      reading (list_meters-Unchanged _ _ _) (λ ms. reading (list_features-Unchanged _ _ _) (λ fs.
        reading (list_plans-Unchanged _ _ _)
          (λ ps. reading (list_subscriptions-Unchanged _ _ _ _ _) (λ subs. page _ refl)))))

  module _ (display : Display) where
    meters_page-Answers : Answers (IsFor u) (meters_page display u)
    unfolding meters_page viewer
    meters_page-Answers = reading (list_meters-Unchanged _ _ _) (λ ms. page _ refl)

    features_page-Answers : Answers (IsFor u) (features_page display u)
    unfolding features_page viewer
    features_page-Answers = reading (list_features-Unchanged _ _ _) (λ fs. page _ refl)

    customers_page-Answers : Answers (IsFor u) (customers_page display u)
    unfolding customers_page viewer
    customers_page-Answers = reading (list_customers-Unchanged _ _) (λ cs. page _ refl)

    plans_page-Answers : Answers (IsFor u) (plans_page display u)
    unfolding plans_page viewer
    plans_page-Answers = reading (list_plans-Unchanged _ _ _) (λ ps. page _ refl)

    meter_page-Answers : (m : Option Meter) → Answers (IsFor u) (meter_page display u m)
    unfolding meter_page viewer
    meter_page-Answers none = missing
    meter_page-Answers (some m) = reading (list_features-Unchanged _ _ _) (λ fs. page _ refl)

    meter_if_any-Answers : (id : Option String) → Answers Any (meter_if_any display id)
    unfolding meter_if_any
    meter_if_any-Answers none = Answers-pure Any none tt
    meter_if_any-Answers (some id) = Answers-or_nil _ (get_meter-Unchanged id)

    feature_page-Answers : (f : Option Feature) → Answers (IsFor u) (feature_page display u f)
    unfolding feature_page viewer
    feature_page-Answers none = missing
    feature_page-Answers (some f) =
        Answers-then (meter_if_any-Answers f.meter_id) (λ m. page _ refl)

    plan_page-Answers : (p : Option PlanRow) → Answers (IsFor u) (plan_page display u p)
    unfolding plan_page viewer
    plan_page-Answers none = missing
    plan_page-Answers (some p) =
        reading (count_subscriptions_for_plan-Unchanged _) (λ counted. page _ refl)

    entitlement_views-Answers :
        (fs : List (String × Feature)) (ents : List EntitlementRow)
        → Answers Any (entitlement_views display fs ents)
    unfolding entitlement_views
    entitlement_views-Answers fs [] = Answers-pure Any [] tt
    entitlement_views-Answers fs (e ∷ ents) =
        Answers-then (Answers-or_nil _ (list_grants-Unchanged _ _ _ _)) (λ grants.
          Answers-then (entitlement_views-Answers fs ents) (λ rest. Answers-pure Any _ tt))

    customer_page-Answers : (c : Option Customer) → Answers (IsFor u) (customer_page display u c)
    unfolding customer_page viewer
    customer_page-Answers none = missing
    customer_page-Answers (some c) = reading (list_features-Unchanged _ _ _) (λ fs.
        reading (list_entitlements-Unchanged _ _ _)
          (λ ents. Answers-then (entitlement_views-Answers _ _) (λ views. page _ refl)))

    plan_filter-Answers : (query : String) → Answers Any (plan_filter query)
    unfolding plan_filter
    plan_filter-Answers query = elim (Bool-cases (query == "")) [
      | inl e ↦ rw e (Answers-pure Any ("", "") tt)
      | inr e ↦ rw e (
          Answers-then (Answers-or_nil _ (get_plan-Unchanged query))
            (λ p. Answers-pure Any (filter_of query p) tt))
    ]

    module _ (env : Env) where
      subscriptions_page-Answers :
          (query : String) → Answers (IsFor u) (subscriptions_page display env query u)
      unfolding subscriptions_page viewer
      subscriptions_page-Answers query = Answers-then (plan_filter-Answers query) (λ chosen.
          reading (list_customers-Unchanged _ _) (λ cs. reading (list_plans-Unchanged _ _ _) (λ ps.
            Answers-then (now-Answers env)
              (λ at. reading (list_subscriptions-Unchanged _ _ _ _ _) (λ subs. page _ refl)))))

      pub page_of-Answers : (route : Route) → Answers (IsFor u) (page_of display env route u)
      unfolding page_of meter_detail feature_detail customer_detail plan_detail
      page_of-Answers root_path = overview-Answers
      page_of-Answers meters_path = meters_page-Answers
      page_of-Answers (meter_path id) = reading (get_meter-Unchanged id) meter_page-Answers
      page_of-Answers features_path = features_page-Answers
      page_of-Answers (feature_path id) = reading (get_feature-Unchanged id) feature_page-Answers
      page_of-Answers customers_path = customers_page-Answers
      page_of-Answers (customer_path id) = reading (get_customer-Unchanged id) customer_page-Answers
      page_of-Answers plans_path = plans_page-Answers
      page_of-Answers (plan_path id) = reading (get_plan-Unchanged id) plan_page-Answers
      page_of-Answers (subscriptions_path query) = subscriptions_page-Answers query
