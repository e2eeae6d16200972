-- ===== src/Store/Rows.antt =====
-- The rows of the tables, as internal/store/store.go declares them.
use metery.Prelude.{ℤ, String, Option}
use metery.Time.{Time}

pub record Customer : Type 0 where
  pub id : String
  pub key : String
  pub name : String
  pub metadata : Option String
  pub created_at : Time
  pub deactivated_at : Option Time

pub record Meter : Type 0 where
  pub id : String
  pub slug : String
  pub name : String
  pub aggregation : String
  pub event_type : String
  pub value_property : Option String
  pub created_at : Time
  pub archived_at : Option Time

pub record Feature : Type 0 where
  pub id : String
  pub slug : String
  pub name : String
  pub meter_id : Option String
  pub created_at : Time
  pub archived_at : Option Time

pub record EntitlementRow : Type 0 where
  pub id : String
  pub customer_id : String
  pub feature_id : String
  pub usage_period_duration : Option String
  pub usage_period_anchor : Option Time
  pub rollover_max : Option ℤ
  pub created_at : Time
  pub deleted_at : Option Time
  pub subscription_id : Option String

pub record GrantRow : Type 0 where
  pub id : String
  pub entitlement_id : String
  pub amount : ℤ
  pub priority : ℤ
  pub effective_at : Time
  pub expires_at : Option Time
  pub metadata : Option String
  pub created_at : Time
  pub voided_at : Option Time
  pub subscription_id : Option String

pub record Event : Type 0 where
  pub id : String
  pub customer : String
  pub kind : String
  pub time : Time
  pub payload : Option String
  pub created_at : Time
  pub processed_at : Option Time

pub record SnapshotRow : Type 0 where
  pub entitlement_id : String
  pub as_of : Time
  pub balance : ℤ
  pub per_grant_state : String

pub record PlanRow : Type 0 where
  pub id : String
  pub slug : String
  pub name : String
  pub entries : String
  pub recurrence_interval : Option String
  pub recurrence_anchor : Option Time
  pub metadata : Option String
  pub created_at : Time
  pub archived_at : Option Time

pub record SubscriptionRow : Type 0 where
  pub id : String
  pub customer_id : String
  pub plan_id : String
  pub starts_at : Time
  pub ends_at : Option Time
  pub canceled_at : Option Time
  pub metadata : Option String
  pub created_at : Time

-- `MaterializeGrant` and `SubscriptionEntry`: a plan's entry, resolved.
pub record MaterializeGrant : Type 0 where
  pub amount : ℤ
  pub priority : ℤ
  pub expires_at : Option Time
  pub metadata : Option String

pub record SubscriptionEntry : Type 0 where
  pub feature_id : String
  pub usage_period_duration : Option String
  pub usage_period_anchor : Option Time
  pub rollover_max : Option ℤ
  pub grant : Option MaterializeGrant

pub record User : Type 0 where
  pub id : String
  pub google_id : String
  pub email : String
  pub name : String
  pub created_at : Time
