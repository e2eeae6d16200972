-- ===== src/Worker.antt =====
-- internal/worker/recurrence.go: the pass that emits the due grants of the active subscriptions on
-- recurring plans. The ticker that repeats the pass and the log are left out.
pub mod Kept
pub mod Loop
pub mod Emissions
pub mod Latest
pub mod Interval
pub mod Due
mod Tests
use metery.Prelude.{ℕ, ◌+◌, pos, Option, none, some, String, List, [], ◌∷◌, ◌==◌, if◌then◌else◌}
use metery.Time.{Time, after}
use metery.Duration.{Duration}
use metery.Store.Rows.{Feature, GrantRow, SubscriptionRow}
use metery.Store.Db.{Env, StoreError, Action, ◌>>=◌, pure, now_second, new_ulid}
use metery.Store.Catalog.{get_feature}
use metery.Store.Entitlements.{create_grant, get_latest_subscription_grant}
use metery.Store.Subscriptions.{RecurringSubscription, list_recurring_subscriptions}
use metery.Service.Rpc.{
  or_nil, get_or, GrantTemplate, PlanEntry, Codec, shift_time, plan_entries_from_json,
}

-- The counters of a pass.
pub record Tally : Type 0 where
  pub emitted : ℕ
  pub skipped : ℕ

abbrev pub emit : Tally → Tally
emit c = record c { emitted = c.emitted + 1 }

abbrev pub skip : Tally → Tally
skip c = record c { skipped = c.skipped + 1 }

-- `EntitlementByFeature[id]`: of two entries for one feature the later is in the map.
unfoldable pub entitlement_by_feature : List (String × String) → String → Option String
entitlement_by_feature [] id = none
entitlement_by_feature ((f, e) ∷ entries) id = elim (entitlement_by_feature entries id) [
  | some later ↦ some later
  | none ↦ if f == id then some e else none
]

-- Where the next cycle is counted from: the last grant, or the subscription's start.
abbrev pub base_of : SubscriptionRow → Option GrantRow → Time
base_of sub none = sub.starts_at
base_of sub (some last) = last.effective_at

module _ {M : Type 0} (codec : Codec M) (env : Env) (now : Time) where
  -- An expiration that does not parse is left out.
  unfoldable pub child_expiry : Time → Option String → Option Time
  child_expiry next_time none = none
  child_expiry next_time (some text) = elim (codec.parse_duration text) [
    | none ↦ none
    | some d ↦ some (shift_time next_time d)
  ]

  unfoldable pub child_of : SubscriptionRow → String → GrantTemplate → Time → String → GrantRow
  child_of sub ent_id g next_time id = record {
    id = id;
    entitlement_id = ent_id;
    amount = g.amount;
    priority = get_or g.priority (pos 100);
    effective_at = next_time;
    expires_at = child_expiry next_time g.expiration;
    metadata = none;
    created_at = now;
    voided_at = none;
    subscription_id = some sub.id;
  }

  -- A child that the store refuses is not counted.
  abbrev pub count_child : Tally → Option (Unit {0}) → Tally
  count_child c none = c
  count_child c (some _) = emit c

  unfoldable pub emit_child :
      SubscriptionRow → String → GrantTemplate → Time → Tally → Action StoreError Tally
  emit_child sub ent_id g next_time c = do
    id ← new_ulid env
    created ← or_nil (create_grant (child_of sub ent_id g next_time id))
    pure (count_child c created)

  -- The next grant after the last one, unless it is still to come.
  unfoldable pub emit_if_due :
      SubscriptionRow → String → GrantTemplate → Tally → Time → Action StoreError Tally
  emit_if_due sub ent_id g c next_time =
      if after next_time now then pure c else emit_child sub ent_id g next_time c

  -- The due grant of an entitlement, if there is an entitlement.
  unfoldable pub emit_due :
      Duration → SubscriptionRow → GrantTemplate → Tally → Option String → Action StoreError Tally
  emit_due dur sub g c none = pure c
  emit_due dur sub g c (some ent_id) = do
    last ← or_nil (get_latest_subscription_grant sub.id ent_id)
    emit_if_due sub ent_id g c (shift_time (base_of sub last) dur)

  -- One entry of a plan that has a grant, with the feature that was found.
  unfoldable pub process_feature :
      Duration
      → RecurringSubscription
      → GrantTemplate
      → Tally
      → Option Feature
      → Action StoreError Tally
  process_feature dur rs g c none = pure (skip c)
  process_feature dur rs g c (some feat) =
      emit_due dur rs.subscription g c (entitlement_by_feature rs.entitlement_by_feature feat.id)

  unfoldable pub process_grant :
      Duration
      → RecurringSubscription
      → String
      → Tally
      → Option GrantTemplate
      → Action StoreError Tally
  process_grant dur rs slug c none = pure c
  process_grant dur rs slug c (some g) = do
    found ← or_nil (get_feature slug)
    process_feature dur rs g c found

  -- One entry of a plan.
  unfoldable pub process_entry :
      Duration → RecurringSubscription → PlanEntry → Tally → Action StoreError Tally
  process_entry dur rs pe c = process_grant dur rs pe.feature_slug c pe.grant

  unfoldable pub process_entries :
      Duration → RecurringSubscription → List PlanEntry → Tally → Action StoreError Tally
  process_entries dur rs [] c = pure c
  process_entries dur rs (pe ∷ pes) c = do
    c' ← process_entry dur rs pe c
    process_entries dur rs pes c'

  -- The plan's entries, skipped if they do not parse.
  unfoldable pub process_decoded :
      Duration → RecurringSubscription → Tally → Option (List PlanEntry) → Action StoreError Tally
  process_decoded dur rs c none = pure (skip c)
  process_decoded dur rs c (some entries) = process_entries dur rs entries c

  -- The plan's interval, skipped if it does not parse.
  unfoldable pub process_interval :
      RecurringSubscription → Tally → Option Duration → Action StoreError Tally
  process_interval rs c none = pure (skip c)
  process_interval rs c (some dur) =
      process_decoded dur rs c (plan_entries_from_json codec rs.plan.entries)

  unfoldable pub process_subscription : RecurringSubscription → Tally → Action StoreError Tally
  process_subscription rs c = elim rs.plan.recurrence_interval [
    | none ↦ pure c
    | some interval ↦ process_interval rs c (codec.parse_duration interval)
  ]

  unfoldable pub process_subscriptions :
      List RecurringSubscription → Tally → Action StoreError Tally
  process_subscriptions [] c = pure c
  process_subscriptions (rs ∷ rest) c = do
    c' ← process_subscription rs c
    process_subscriptions rest c'

-- `processRecurrence`: the counters of the pass, or the error of the listing.
unfoldable pub process_recurrence : {M : Type 0} → Codec M → Env → Action StoreError Tally
process_recurrence codec env = do
  subs ← list_recurring_subscriptions
  now ← now_second env
  process_subscriptions codec env now subs (record { emitted = 0; skipped = 0 })
