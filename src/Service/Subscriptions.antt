-- ===== src/Service/Subscriptions.antt =====
-- internal/service/subscription.go: the handlers of subscriptions.
pub mod Listing
use mathlib.Core.Option
use metery.Prelude.{ℤ, pos, Bool, not, Option, none, some, String, List, [], ◌∷◌}
use Prim.Native.String.{◌++◌ as str_append}
use metery.Time.{Time}
use metery.Store.Rows.{
  Feature, PlanRow, SubscriptionRow, SubscriptionEntry, MaterializeGrant, Customer,
}
use metery.Store.Table.{is_none}
use metery.Store.Db.{Env, Action, ◌>>=◌, ◌>>◌, pure, or_fail, now_second, new_ulid}
use metery.Store.Catalog.{get_customer, get_feature}
use metery.Store.Plans.{get_plan}
use metery.Store.Subscriptions
use metery.Service.Rpc.{
  not_found, failed_precondition, already_exists, invalid_argument, RpcError, refused, internal,
  or_refuse, or_internal, or_nil, refuse_if, get_or, PlanEntry, Codec, shift_time, metadata_text,
  plan_entries_from_json,
}

pub record CreateSubscriptionRequest (M : Type 0) : Type 0 where
  pub customer_id_or_key : String
  pub plan_id_or_slug : String
  pub starts_at : Option Time
  pub ends_at : Option Time
  pub metadata : Option M

pub record CancelSubscriptionRequest : Type 0 where
  pub id : String
  pub at : Option Time

pub record ChangeSubscriptionRequest : Type 0 where
  pub id : String
  pub plan_id_or_slug : String
  pub effective_at : Option Time

-- The `Subscription` of the API.
pub record Subscription (M : Type 0) : Type 0 where
  pub id : String
  pub customer_key : String
  pub plan_slug : String
  pub starts_at : Time
  pub created_at : Time
  pub ends_at : Option Time
  pub canceled_at : Option Time
  pub metadata : Option M

-- The key of a customer and the slug of a plan, empty where there is none.
abbrev pub key_of : Option Customer → String
key_of none = ""
key_of (some c) = c.key

abbrev pub slug_of : Option PlanRow → String
slug_of none = ""
slug_of (some p) = p.slug

module _ {M : Type 0} (codec : Codec M) where
  unfoldable pub subscription_row_to_proto : SubscriptionRow → String → String → Subscription M
  subscription_row_to_proto sub customer_key plan_slug = record {
    id = sub.id;
    customer_key = customer_key;
    plan_slug = plan_slug;
    starts_at = sub.starts_at;
    created_at = sub.created_at;
    ends_at = sub.ends_at;
    canceled_at = sub.canceled_at;
    metadata = elim sub.metadata [ none ↦ none | some text ↦ codec.unmarshal text ];
  }

  -- The expiry of a grant: none without one, an error where the text does not parse.
  unfoldable pub expiry_of : Time → Option String → Action RpcError (Option Time)
  expiry_of starts_at none = pure none
  expiry_of starts_at (some text) = do
    dur ←
        or_fail (codec.parse_duration text) (refused invalid_argument "invalid expiration duration")
    pure (some (shift_time starts_at dur))

  unfoldable pub grant_of : Feature → Time → PlanEntry → Action RpcError (Option MaterializeGrant)
  grant_of feat starts_at pe = elim pe.grant [
    | none ↦ pure none
    | some g ↦ do
      refuse_if (is_none feat.meter_id) failed_precondition
          (str_append "plan entry has grant template for boolean feature: " pe.feature_slug)
      exp ← expiry_of starts_at g.expiration
      pure (
          some (record {
            amount = g.amount;
            priority = get_or g.priority (pos 100);
            expires_at = exp;
            metadata = none;
          }))
  ]

  -- The loop over the plan's entries.
  unfoldable pub build_entries : Time → List PlanEntry → Action RpcError (List SubscriptionEntry)
  build_entries starts_at [] = pure []
  build_entries starts_at (pe ∷ pes) = do
    feat ←
        or_refuse (get_feature pe.feature_slug) failed_precondition
          (str_append "feature not found: " pe.feature_slug)
    grant ← grant_of feat starts_at pe
    rest ← build_entries starts_at pes
    let entry : SubscriptionEntry = record {
      feature_id = feat.id;
      usage_period_duration = Option.map (λ p. p.duration) pe.usage_period;
      usage_period_anchor = elim pe.usage_period [ none ↦ none | some p ↦ p.anchor ];
      rollover_max = pe.rollover;
      grant = grant;
    }
    pure (entry ∷ rest)

  unfoldable pub build_subscription_entries :
      PlanRow → Time → Action RpcError (List SubscriptionEntry)
  build_subscription_entries p starts_at = do
    plan_entries ←
        or_fail (plan_entries_from_json codec p.entries) (internal "plan entries corrupt")
    build_entries starts_at plan_entries

  unfoldable pub create_subscription :
      Env → CreateSubscriptionRequest M → Action RpcError (Subscription M)
  create_subscription env req = do
    c ← or_refuse (get_customer req.customer_id_or_key) not_found "customer not found"
    p ← or_refuse (get_plan req.plan_id_or_slug) not_found "plan not found"
    refuse_if (not (is_none p.archived_at)) failed_precondition "plan is archived"
    dup ← or_internal (Subscriptions.has_active_subscription_for_plan c.id p.id)
    refuse_if dup already_exists "customer already has an active subscription to this plan"
    default_start ← now_second env
    let starts_at = get_or req.starts_at default_start
    id ← new_ulid env
    created ← now_second env
    let sub : SubscriptionRow = record {
      id = id;
      customer_id = c.id;
      plan_id = p.id;
      starts_at = starts_at;
      ends_at = req.ends_at;
      canceled_at = none;
      metadata = metadata_text codec req.metadata;
      created_at = created;
    }
    entries ← build_subscription_entries p starts_at
    or_internal (Subscriptions.create_subscription_with_materialize env sub entries)
    pure (subscription_row_to_proto sub c.key p.slug)

  unfoldable pub get_subscription : String → Action RpcError (Subscription M)
  get_subscription id = do
    sub ← or_refuse (Subscriptions.get_subscription id) not_found "subscription not found"
    c ← or_nil (get_customer sub.customer_id)
    p ← or_nil (get_plan sub.plan_id)
    pure (subscription_row_to_proto sub (key_of c) (slug_of p))

  unfoldable pub cancel_subscription : Env → CancelSubscriptionRequest → Action RpcError (Unit {0})
  cancel_subscription env req = do
    default_at ← now_second env
    or_internal (Subscriptions.cancel_subscription req.id (get_or req.at default_at))

  unfoldable pub change_subscription :
      Env → ChangeSubscriptionRequest → Action RpcError (Subscription M)
  change_subscription env req = do
    sub ← or_refuse (Subscriptions.get_subscription req.id) not_found "subscription not found"
    refuse_if (not (is_none sub.canceled_at)) failed_precondition "subscription is cancelled"
    new_plan ← or_refuse (get_plan req.plan_id_or_slug) not_found "plan not found"
    refuse_if (not (is_none new_plan.archived_at)) failed_precondition "plan is archived"
    default_at ← now_second env
    let effective_at = get_or req.effective_at default_at
    entries ← build_subscription_entries new_plan effective_at
    or_internal (Subscriptions.change_subscription env sub new_plan.id effective_at entries)
    updated ← or_internal (Subscriptions.get_subscription sub.id)
    c ← or_nil (get_customer updated.customer_id)
    pure (subscription_row_to_proto updated (key_of c) new_plan.slug)
