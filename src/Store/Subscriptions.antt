-- ===== src/Store/Subscriptions.antt =====
-- Subscriptions of internal/store/store.go, and the entitlements and grants that come with them.
use mathlib.Core.Option
pub mod Cancel
pub mod Grows
pub mod Materialized
pub mod Changed
mod Tests
use metery.Prelude.{
  ℕ, ℤ, pos, Bool, not, Option, none, some, String, List, [], ◌∷◌, any, filter, find?, map, length,
  count, ◌==◌, ◌||◌, ◌&&◌, if◌then◌else◌, text_lt,
}
use metery.Time.{Time}
use metery.Store.Table.{
  is_none, is_value, coalesce, insert_row, update_where, is_unique, order_by, limit_rows,
}
use metery.Store.Db.{
  Env, StoreError, no_rows, Action, ◌>>=◌, ◌>>◌, pure, gets, or_fail, modify, try_modify, new_ulid,
  transaction,
}
use metery.Store.Rows.{
  EntitlementRow, SubscriptionRow, SubscriptionEntry, MaterializeGrant, GrantRow, PlanRow,
}
use metery.Store.Constraints.{same_subscription}
use metery.Store.Entitlements.{add_entitlement, add_grant, is_active_for, list_entitlements}
use metery.Store.Plans.{get_plan}

unfoldable pub get_subscription : String → Action StoreError SubscriptionRow
get_subscription id = do or_fail (← gets (λ db. find? (λ s. s.id == id) db.subscriptions)) no_rows

abbrev pub is_active_on : String → String → SubscriptionRow → Bool
is_active_on customer_id plan_id s =
    (s.customer_id == customer_id && s.plan_id == plan_id) && is_none s.canceled_at

unfoldable pub has_active_subscription_for_plan : String → String → Action StoreError Bool
has_active_subscription_for_plan customer_id plan_id =
    gets (λ db. any (is_active_on customer_id plan_id) db.subscriptions)

-- The number of subscriptions to a plan, and the number of those that are active.
unfoldable pub count_subscriptions_for_plan : String → Action StoreError (ℕ × ℕ)
count_subscriptions_for_plan plan_id = gets (λ db.
    let rows = filter (λ s. s.plan_id == plan_id) db.subscriptions in
    (length rows, count (λ s. is_none s.canceled_at) rows))

unfoldable pub list_subscriptions :
    String → String → Bool → ℤ → String → Action StoreError (List SubscriptionRow)
list_subscriptions customer_id plan_id include_canceled limit after = gets (λ db. limit_rows limit (
    order_by (λ a b. text_lt a.id b.id)
      (filter
        (λ s.
          (text_lt after s.id && (customer_id == "" || s.customer_id == customer_id))
          && ((plan_id == "" || s.plan_id == plan_id)
              && (include_canceled || is_none s.canceled_at)))
        db.subscriptions)))

-- The rows that an entry brings.
abbrev pub new_entitlement : SubscriptionRow → SubscriptionEntry → String → EntitlementRow
new_entitlement sub e id = record {
  id = id;
  customer_id = sub.customer_id;
  feature_id = e.feature_id;
  usage_period_duration = e.usage_period_duration;
  usage_period_anchor = e.usage_period_anchor;
  rollover_max = e.rollover_max;
  created_at = sub.created_at;
  deleted_at = none;
  subscription_id = some sub.id;
}

abbrev pub new_grant : SubscriptionRow → String → MaterializeGrant → String → GrantRow
new_grant sub ent_id g id = record {
  id = id;
  entitlement_id = ent_id;
  amount = g.amount;
  priority = g.priority;
  effective_at = sub.starts_at;
  expires_at = g.expires_at;
  metadata = g.metadata;
  created_at = sub.created_at;
  voided_at = none;
  subscription_id = some sub.id;
}

-- The entitlement of an entry: the active one that the customer has, or a new one.
unfoldable pub reuse_or_create :
    Env → SubscriptionRow → SubscriptionEntry → Option EntitlementRow → Action StoreError String
reuse_or_create env sub e (some row) = pure row.id
reuse_or_create env sub e none = do
  id ← new_ulid env
  try_modify (add_entitlement (new_entitlement sub e id))
  pure id

unfoldable pub entitlement_for :
    Env → SubscriptionRow → SubscriptionEntry → Action StoreError String
entitlement_for env sub e = do
  found ← gets (λ db. find? (is_active_for sub.customer_id e.feature_id) db.entitlements)
  reuse_or_create env sub e found

-- The grant of an entry, if it has one.
unfoldable pub grant_for :
    Env → SubscriptionRow → String → Option MaterializeGrant → Action StoreError (Unit {0})
grant_for env sub ent_id none = pure tt
grant_for env sub ent_id (some g) = do
  id ← new_ulid env
  try_modify (add_grant (new_grant sub ent_id g id))

unfoldable pub materialize_entries :
    Env → SubscriptionRow → List SubscriptionEntry → Action StoreError (Unit {0})
materialize_entries env sub [] = pure tt
materialize_entries env sub (e ∷ es) = do
  ent_id ← entitlement_for env sub e
  grant_for env sub ent_id e.grant
  materialize_entries env sub es

unfoldable pub insert_subscription : SubscriptionRow → Action StoreError (Unit {0})
insert_subscription sub = try_modify (λ db.
    Option.map (λ rows. record db { subscriptions = rows })
      (insert_row same_subscription sub db.subscriptions))

unfoldable pub create_subscription_with_materialize :
    Env → SubscriptionRow → List SubscriptionEntry → Action StoreError (Unit {0})
create_subscription_with_materialize env sub entries =
    transaction (insert_subscription sub >> materialize_entries env sub entries)

-- `UPDATE grants SET voided_at = ? WHERE subscription_id = ? AND voided_at IS NULL`
abbrev pub void_grants_of : String → Time → List GrantRow → List GrantRow
void_grants_of id at =
    update_where (λ g. is_value g.subscription_id id && is_none g.voided_at)
      (λ g. record g { voided_at = some at })

abbrev pub cancel_row : Time → SubscriptionRow → SubscriptionRow
cancel_row at s = record s { canceled_at = some at; ends_at = coalesce s.ends_at at }

-- `UPDATE subscriptions SET canceled_at = ?, … WHERE id = ? AND canceled_at IS NULL`
abbrev pub cancel_rows : String → Time → List SubscriptionRow → List SubscriptionRow
cancel_rows id at = update_where (λ s. s.id == id && is_none s.canceled_at) (cancel_row at)

unfoldable pub cancel_subscription : String → Time → Action StoreError (Unit {0})
cancel_subscription id at = transaction (do
  modify (λ db. record db { subscriptions = cancel_rows id at db.subscriptions })
  modify (λ db. record db { grants = void_grants_of id at db.grants }))

-- `UPDATE subscriptions SET plan_id = ? WHERE id = ?`, which the unique index may refuse.
unfoldable pub set_plan : String → String → Action StoreError (Unit {0})
set_plan id plan_id = try_modify (λ db.
    let rows =
      update_where (λ s. s.id == id) (λ s. record s { plan_id = plan_id }) db.subscriptions in
    if is_unique same_subscription rows then some (record db { subscriptions = rows }) else none)

unfoldable pub change_subscription :
    Env → SubscriptionRow → String → Time → List SubscriptionEntry → Action StoreError (Unit {0})
change_subscription env sub new_plan_id effective_at entries = transaction (do
  modify (λ db. record db { grants = void_grants_of sub.id effective_at db.grants })
  set_plan sub.id new_plan_id
  materialize_entries env (record sub { plan_id = new_plan_id; starts_at = effective_at }) entries)

-- An active subscription with its plan, and the customer's entitlements by feature.
pub record RecurringSubscription : Type 0 where
  pub subscription : SubscriptionRow
  pub plan : PlanRow
  pub entitlement_by_feature : List (String × String)

-- The join of `ListRecurringSubscriptions`.
abbrev pub has_recurring_plan : List PlanRow → SubscriptionRow → Bool
has_recurring_plan plans s =
    is_none s.canceled_at
    && any
        (λ p. p.id == s.plan_id && (not (is_none p.recurrence_interval) && is_none p.archived_at))
        plans

unfoldable pub recurring_of : List SubscriptionRow → Action StoreError (List RecurringSubscription)
recurring_of [] = pure []
recurring_of (s ∷ ss) = do
  plan ← get_plan s.plan_id
  ents ← list_entitlements s.customer_id (pos 1000) ""
  rest ← recurring_of ss
  pure (
      record {
        subscription = s;
        plan = plan;
        entitlement_by_feature = map (λ e. (e.feature_id, e.id)) ents;
      }
      ∷ rest)

unfoldable pub list_recurring_subscriptions : Action StoreError (List RecurringSubscription)
list_recurring_subscriptions = do
  subs ← gets (λ db. filter (has_recurring_plan db.plans) db.subscriptions)
  recurring_of subs
