-- ===== src/Web/Catalog.antt =====
-- The overview, and the pages of meters and features.
use metery.Prelude.{pos, true, false, not, Option, none, some, String, map, filter}
use metery.Store.Rows.{User, Meter, Feature}
use metery.Store.Table.{is_none, is_value}
use metery.Store.Db.{StoreError, Action, ◌>>=◌, pure}
use metery.Store.Catalog.{list_customers, get_meter, list_meters, get_feature, list_features}
use metery.Store.Plans.{list_plans}
use metery.Store.Subscriptions.{list_subscriptions}
use metery.Service.Rpc.{or_nil}
use metery.Web.{Handler, rows_of, count_of, text_of, time_of}
use metery.Web.Pages.{
  Display, MeterRow, FeatureRow, MeterFeatureRow, http_not_found, index_html, meters_html,
  features_html, meter_detail_html, feature_detail_html,
}

-- `Overview`, from the user on.
unfoldable pub overview : User → Handler
overview user = do
  cs ← or_nil (list_customers (pos 1000) "")
  ms ← or_nil (list_meters false (pos 1000) "")
  fs ← or_nil (list_features false (pos 1000) "")
  ps ← or_nil (list_plans false (pos 1000) "")
  subs ← or_nil (list_subscriptions "" "" false (pos 1000) "")
  pure (
      index_html (record {
        layout = record { active_tab = "overview"; title = "Overview"; user = user };
        customer_count = count_of cs;
        meter_count = count_of ms;
        feature_count = count_of fs;
        plan_count = count_of ps;
        subscription_count = count_of subs;
      }))

abbrev pub type_of : Option String → String
type_of none = "boolean"
type_of (some meter_id) = "metered"

module _ (display : Display) where
  abbrev pub meter_row : Meter → MeterRow
  meter_row m = record {
    id = m.id;
    slug = m.slug;
    name = m.name;
    aggregation = m.aggregation;
    event_type = m.event_type;
    value_property = text_of m.value_property;
    created_at = display.format m.created_at;
  }

  unfoldable pub meters_page : User → Handler
  meters_page user = do
    ms ← or_nil (list_meters false (pos 50) "")
    pure (
        meters_html (record {
          layout = record { active_tab = "meters"; title = "Meters"; user = user };
          meters = map meter_row (rows_of ms);
        }))

  abbrev pub feature_row : Feature → FeatureRow
  feature_row f = record {
    id = f.id;
    slug = f.slug;
    name = f.name;
    kind = type_of f.meter_id;
    created_at = display.format f.created_at;
  }

  unfoldable pub features_page : User → Handler
  features_page user = do
    fs ← or_nil (list_features false (pos 50) "")
    pure (
        features_html (record {
          layout = record { active_tab = "features"; title = "Features"; user = user };
          features = map feature_row (rows_of fs);
        }))

  abbrev pub meter_feature_row : Feature → MeterFeatureRow
  meter_feature_row f = record {
    slug = f.slug;
    name = f.name;
    created_at = display.format f.created_at;
  }

  -- The page of a meter, with the features on it.
  unfoldable pub meter_page : User → Option Meter → Handler
  meter_page user none = pure http_not_found
  meter_page user (some m) = do
    fs ← or_nil (list_features true (pos 1000) "")
    pure (
        meter_detail_html (record {
          layout = record { active_tab = "meters"; title = m.name; user = user };
          id = m.id;
          slug = m.slug;
          name = m.name;
          aggregation = m.aggregation;
          event_type = m.event_type;
          value_property = text_of m.value_property;
          created_at = display.format m.created_at;
          archived_at = time_of display m.archived_at;
          archived = not (is_none m.archived_at);
          features = map meter_feature_row (filter (λ f. is_value f.meter_id m.id) (rows_of fs));
        }))

  unfoldable pub meter_detail : String → User → Handler
  meter_detail id_or_slug user = or_nil (get_meter id_or_slug) >>= meter_page user

  -- The meter of a feature that has one, if the store finds it.
  unfoldable pub meter_if_any : Option String → Action StoreError (Option Meter)
  meter_if_any none = pure none
  meter_if_any (some meter_id) = or_nil (get_meter meter_id)

  abbrev pub slug_of : Option Meter → String
  slug_of none = ""
  slug_of (some m) = m.slug

  abbrev pub name_of : Option Meter → String
  name_of none = ""
  name_of (some m) = m.name

  unfoldable pub feature_page : User → Option Feature → Handler
  feature_page user none = pure http_not_found
  feature_page user (some f) = do
    m ← meter_if_any f.meter_id
    pure (
        feature_detail_html (record {
          layout = record { active_tab = "features"; title = f.name; user = user };
          id = f.id;
          slug = f.slug;
          name = f.name;
          kind = type_of f.meter_id;
          meter_slug = slug_of m;
          meter_name = name_of m;
          created_at = display.format f.created_at;
          archived_at = time_of display f.archived_at;
          archived = not (is_none f.archived_at);
        }))

  unfoldable pub feature_detail : String → User → Handler
  feature_detail id_or_slug user = or_nil (get_feature id_or_slug) >>= feature_page user
