-- ===== src/Web/Customers.antt =====
-- The pages of customers.
use metery.Prelude.{pos, true, not, Option, none, some, String, List, [], ◌∷◌, map}
use metery.Store.Rows.{User, Customer, Feature, EntitlementRow, GrantRow}
use metery.Store.Table.{is_none}
use metery.Store.Db.{StoreError, Action, ◌>>=◌, pure}
use metery.Store.Catalog.{get_customer, list_customers, list_features}
use metery.Store.Entitlements.{list_entitlements, list_grants}
use metery.Service.Rpc.{or_nil}
use metery.Web.{Handler, rows_of, map_get, text_of, time_of}
use metery.Web.Pages.{
  Display, CustomerRow, GrantView, EntitlementView, http_not_found, customers_html,
  customer_detail_html,
}

module _ (display : Display) where
  abbrev pub customer_row : Customer → CustomerRow
  customer_row c = record {
    id = c.id;
    key = c.key;
    name = c.name;
    created_at = display.format c.created_at;
    active = is_none c.deactivated_at;
  }

  unfoldable pub customers_page : User → Handler
  customers_page user = do
    cs ← or_nil (list_customers (pos 50) "")
    pure (
        customers_html (record {
          layout = record { active_tab = "customers"; title = "Customers"; user = user };
          customers = map customer_row (rows_of cs);
        }))

  abbrev pub grant_view : GrantRow → GrantView
  grant_view g = record {
    id = g.id;
    amount = g.amount;
    priority = g.priority;
    effective_at = display.format g.effective_at;
    expires_at = time_of display g.expires_at;
    voided = not (is_none g.voided_at);
    created_at = display.format g.created_at;
  }

  -- The slug and the name of the entitlement's feature; the id is shown for one that is not listed.
  abbrev pub feature_label : Option Feature → String → String × String
  feature_label none feature_id = (feature_id, "")
  feature_label (some f) feature_id = (f.slug, f.name)

  abbrev pub entitlement_view :
      List (String × Feature) → EntitlementRow → List GrantRow → EntitlementView
  entitlement_view feature_by_id e grants =
      let label = feature_label (map_get feature_by_id e.feature_id) e.feature_id in
      record {
        id = e.id;
        feature_slug = label.0;
        feature_name = label.1;
        usage_period = text_of e.usage_period_duration;
        created_at = display.format e.created_at;
        deleted = not (is_none e.deleted_at);
        grants = map grant_view grants;
      }

  -- The loop over the entitlements of `CustomerDetail`.
  unfoldable pub entitlement_views :
      List (String × Feature) → List EntitlementRow → Action StoreError (List EntitlementView)
  entitlement_views feature_by_id [] = pure []
  entitlement_views feature_by_id (e ∷ ents) = do
    grants ← or_nil (list_grants e.id true (pos 100) "")
    rest ← entitlement_views feature_by_id ents
    pure (entitlement_view feature_by_id e (rows_of grants) ∷ rest)

  unfoldable pub customer_page : User → Option Customer → Handler
  customer_page user none = pure http_not_found
  customer_page user (some c) = do
    fs ← or_nil (list_features true (pos 1000) "")
    ents ← or_nil (list_entitlements c.id (pos 100) "")
    views ← entitlement_views (map (λ f. (f.id, f)) (rows_of fs)) (rows_of ents)
    pure (
        customer_detail_html (record {
          layout = record { active_tab = "customers"; title = c.name; user = user };
          customer_id = c.id;
          customer_key = c.key;
          customer_name = c.name;
          created_at = display.format c.created_at;
          deactivated_at = time_of display c.deactivated_at;
          active = is_none c.deactivated_at;
          entitlements = views;
        }))

  unfoldable pub customer_detail : String → User → Handler
  customer_detail id_or_key user = or_nil (get_customer id_or_key) >>= customer_page user
