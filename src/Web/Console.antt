-- ===== src/Web/Console.antt =====
-- The routes of the console that cmd/metery/main.go registers, each with its page for the user.
pub mod Answers
pub mod Viewer
pub mod Guarded
use metery.Prelude.{String, List}
use metery.Store.Rows.{User}
use metery.Store.Db.{Env}
use metery.Web.{Handler, require_user}
use metery.Web.Pages.{Display}
use metery.Web.Catalog.{overview, meters_page, meter_detail, features_page, feature_detail}
use metery.Web.Customers.{customers_page, customer_detail}
use metery.Web.Plans.{plans_page, plan_detail}
use metery.Web.Subscriptions.{subscriptions_page}

-- With the value of the path, or of `?plan=` for the subscriptions.
pub data Route : Type 0 where
  root_path meters_path features_path customers_path plans_path : Route
  meter_path feature_path customer_path plan_path subscriptions_path : String → Route

module _ (display : Display) (env : Env) where
  unfoldable pub page_of : Route → User → Handler
  page_of root_path = overview
  page_of meters_path = meters_page display
  page_of (meter_path id_or_slug) = meter_detail display id_or_slug
  page_of features_path = features_page display
  page_of (feature_path id_or_slug) = feature_detail display id_or_slug
  page_of customers_path = customers_page display
  page_of (customer_path id_or_key) = customer_detail display id_or_key
  page_of plans_path = plans_page display
  page_of (plan_path id_or_slug) = plan_detail display id_or_slug
  page_of (subscriptions_path query) = subscriptions_page display env query

  unfoldable pub serve : (String → String) → List (String × String) → Route → Handler
  serve sign cookies route = require_user sign cookies (page_of route)
