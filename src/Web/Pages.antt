-- ===== src/Web/Pages.antt =====
-- The data of the pages of internal/web/web.go, and what the pages need that the program calls.
use metery.Prelude.{ℕ, ℤ, Bool, Option, String, List}
use metery.Time.{Time}
use metery.Store.Rows.{User}

-- An entry of a plan as the console decodes it; a struct of one field is that field.
pub record GrantJson : Type 0 where
  pub amount : String
  pub priority : Option ℤ
  pub expiration : Option String

pub record EntryJson : Type 0 where
  pub feature_slug : String
  pub usage_period : Option String
  pub grant : Option GrantJson
  pub rollover : Option String

-- `t.Local().Format(time.DateTime)`, `strconv.Itoa`, and `json.Unmarshal` into the slugs and the
-- entries of a plan, where none is its error.
pub record Display : Type 0 where
  pub format : Time → String
  pub itoa : ℤ → String
  pub unmarshal_slugs : String → Option (List String)
  pub unmarshal_entries : String → Option (List EntryJson)

pub record LayoutData : Type 0 where
  pub active_tab : String
  pub title : String
  pub user : User

pub record OverviewData : Type 0 where
  pub layout : LayoutData
  pub customer_count : ℕ
  pub meter_count : ℕ
  pub feature_count : ℕ
  pub plan_count : ℕ
  pub subscription_count : ℕ

pub record MeterRow : Type 0 where
  pub id : String
  pub slug : String
  pub name : String
  pub aggregation : String
  pub event_type : String
  pub value_property : String
  pub created_at : String

pub record MetersData : Type 0 where
  pub layout : LayoutData
  pub meters : List MeterRow

pub record FeatureRow : Type 0 where
  pub id : String
  pub slug : String
  pub name : String
  pub kind : String
  pub created_at : String

pub record FeaturesData : Type 0 where
  pub layout : LayoutData
  pub features : List FeatureRow

pub record CustomerRow : Type 0 where
  pub id : String
  pub key : String
  pub name : String
  pub created_at : String
  pub active : Bool

pub record CustomersData : Type 0 where
  pub layout : LayoutData
  pub customers : List CustomerRow

pub record GrantView : Type 0 where
  pub id : String
  pub amount : ℤ
  pub priority : ℤ
  pub effective_at : String
  pub expires_at : String
  pub voided : Bool
  pub created_at : String

pub record EntitlementView : Type 0 where
  pub id : String
  pub feature_slug : String
  pub feature_name : String
  pub usage_period : String
  pub created_at : String
  pub deleted : Bool
  pub grants : List GrantView

pub record CustomerDetailData : Type 0 where
  pub layout : LayoutData
  pub customer_id : String
  pub customer_key : String
  pub customer_name : String
  pub created_at : String
  pub deactivated_at : String
  pub active : Bool
  pub entitlements : List EntitlementView

pub record MeterFeatureRow : Type 0 where
  pub slug : String
  pub name : String
  pub created_at : String

pub record MeterDetailData : Type 0 where
  pub layout : LayoutData
  pub id : String
  pub slug : String
  pub name : String
  pub aggregation : String
  pub event_type : String
  pub value_property : String
  pub created_at : String
  pub archived_at : String
  pub archived : Bool
  pub features : List MeterFeatureRow

pub record FeatureDetailData : Type 0 where
  pub layout : LayoutData
  pub id : String
  pub slug : String
  pub name : String
  pub kind : String
  pub meter_slug : String
  pub meter_name : String
  pub created_at : String
  pub archived_at : String
  pub archived : Bool

pub record PlanLine : Type 0 where
  pub id : String
  pub slug : String
  pub name : String
  pub features : String
  pub recurrence : String
  pub created_at : String

pub record PlansData : Type 0 where
  pub layout : LayoutData
  pub plans : List PlanLine

pub record PlanEntryView : Type 0 where
  pub feature_slug : String
  pub usage_period : String
  pub grant_amount : String
  pub priority : String
  pub expiration : String
  pub rollover : String

pub record PlanDetailData : Type 0 where
  pub layout : LayoutData
  pub id : String
  pub slug : String
  pub name : String
  pub recurrence : String
  pub recurrence_at : String
  pub created_at : String
  pub archived_at : String
  pub archived : Bool
  pub entries : List PlanEntryView
  pub sub_count : ℕ
  pub active_subs : ℕ

pub record SubscriptionLine : Type 0 where
  pub id : String
  pub customer_key : String
  pub plan_slug : String
  pub status : String
  pub starts_at : String
  pub created_at : String

pub record SubscriptionsData : Type 0 where
  pub layout : LayoutData
  pub subscriptions : List SubscriptionLine
  pub filter_plan : String

-- What is sent: a template with its data, or the answer of `http.NotFound`.
pub data Page : Type 0 where
  login_html http_not_found : Page
  index_html : OverviewData → Page
  meters_html : MetersData → Page
  features_html : FeaturesData → Page
  customers_html : CustomersData → Page
  customer_detail_html : CustomerDetailData → Page
  meter_detail_html : MeterDetailData → Page
  feature_detail_html : FeatureDetailData → Page
  plans_html : PlansData → Page
  plan_detail_html : PlanDetailData → Page
  subscriptions_html : SubscriptionsData → Page
