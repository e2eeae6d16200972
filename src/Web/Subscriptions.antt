-- ===== src/Web/Subscriptions.antt =====
-- The page of subscriptions.
use metery.Prelude.{
  pos, Bool, true, not, Option, none, some, String, List, map, ◌==◌, if◌then◌else◌,
}
use metery.Time.{Time, before}
use metery.Store.Rows.{User, PlanRow, SubscriptionRow}
use metery.Store.Db.{Env, StoreError, Action, ◌>>=◌, pure, now}
use metery.Store.Catalog.{list_customers}
use metery.Store.Plans.{get_plan, list_plans}
use metery.Store.Subscriptions.{list_subscriptions}
use metery.Service.Rpc.{or_nil, get_or}
use metery.Web.{Handler, rows_of, map_get}
use metery.Web.Pages.{Display, SubscriptionLine, subscriptions_html}

-- `subscriptionStatus`
unfoldable pub subscription_status : SubscriptionRow → Time → String
subscription_status s now = elim s.canceled_at [
  | some _ ↦ "canceled"
  | none ↦
      if (elim s.ends_at [ none ↦ Bool.false | some ends ↦ not (before now ends) ])
      then "expired"
      else (if before now s.starts_at then "pending" else "active")
]

-- The id of the plan to list for, and the slug of the filter: a query that names no plan is the id
-- of none.
abbrev pub filter_of : String → Option PlanRow → String × String
filter_of query none = (query, query)
filter_of query (some p) = (p.id, p.slug)

unfoldable pub plan_filter : String → Action StoreError (String × String)
plan_filter query =
    if query == ""
    then pure ("", "")
    else or_nil (get_plan query) >>= (λ p. pure (filter_of query p))

-- The entry of a map, or the id where the map has none or an empty one.
abbrev pub or_id : Option String → String → String
or_id found id = if get_or found "" == "" then id else get_or found ""

module _ (display : Display) where
  abbrev pub subscription_line :
      List (String × String) → List (String × String) → Time → SubscriptionRow → SubscriptionLine
  subscription_line customer_keys plan_slugs now s = record {
    id = s.id;
    customer_key = or_id (map_get customer_keys s.customer_id) s.customer_id;
    plan_slug = or_id (map_get plan_slugs s.plan_id) s.plan_id;
    status = subscription_status s now;
    starts_at = display.format s.starts_at;
    created_at = display.format s.created_at;
  }

  -- `SubscriptionsPage`, from the user on, with the value of `?plan=`.
  unfoldable pub subscriptions_page : Env → String → User → Handler
  subscriptions_page env query user = do
    chosen ← plan_filter query
    cs ← or_nil (list_customers (pos 1000) "")
    ps ← or_nil (list_plans true (pos 1000) "")
    at ← now env
    subs ← or_nil (list_subscriptions "" chosen.0 true (pos 50) "")
    pure (
        subscriptions_html (record {
          layout = record { active_tab = "subscriptions"; title = "Subscriptions"; user = user };
          subscriptions =
              map
                (subscription_line (map (λ c. (c.id, c.key)) (rows_of cs))
                  (map (λ p. (p.id, p.slug)) (rows_of ps)) at)
                (rows_of subs);
          filter_plan = chosen.1;
        }))
