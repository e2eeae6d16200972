-- ===== src/Store/Subscriptions/Tests.antt =====
-- The theorems on new and changed subscriptions at small tables.
use metery.Prelude.{
  ltb, ◌*◌, pos, none, some, [], ◌∷◌, ◌++◌, List, All, ◌==◌, ◌≡◌, refl, if◌then◌else◌,
}
use metery.Time.{day}
use metery.Store.Rows.{EntitlementRow, GrantRow, SubscriptionRow, SubscriptionEntry}
use metery.Store.Table.{update_where}
use metery.Store.Db.{Env, World, sqlite, ok, transaction, try_modify, modify, new_ulid}
use metery.Store.Subscriptions.{
  void_grants_of, reuse_or_create, entitlement_for, grant_for, materialize_entries,
  insert_subscription, set_plan, create_subscription_with_materialize, change_subscription,
}
use metery.Store.Subscriptions.Materialized.{IsMaterialized, create_subscription-IsMaterialized}
use metery.Store.Subscriptions.Changed.{change_subscription-IsMaterialized}

abbrev env : Env
env = record {
  clock = λ n. pos (n * day);
  ulid = λ n. if ltb n 1 then "01A" else (if ltb n 2 then "01B" else "01C");
  driver = sqlite;
  encode_states = λ states. "[]";
  decode_states = λ text. some [];
  aggregate = λ name param events. some (pos 0);
}

abbrev owned : EntitlementRow
owned = record {
  id = "ent1";
  customer_id = "c1";
  feature_id = "f1";
  usage_period_duration = none;
  usage_period_anchor = none;
  rollover_max = none;
  created_at = pos 0;
  deleted_at = none;
  subscription_id = none;
}

abbrev world : World
world = record {
  db = record {
    customers = [];
    meters = [];
    features = [];
    entitlements = owned ∷ [];
    grants = [];
    events = [];
    snapshots = [];
    plans = [];
    subscriptions = [];
    users = [];
  };
  reads = 0;
  serial = 0;
}

abbrev subscription : SubscriptionRow
subscription = record {
  id = "s1";
  customer_id = "c1";
  plan_id = "p1";
  starts_at = pos day;
  ends_at = none;
  canceled_at = none;
  metadata = none;
  created_at = pos 0;
}

-- An entry for the feature that the customer has, with a grant, and one for another, without.
abbrev entries : List SubscriptionEntry
entries =
    record {
      feature_id = "f1";
      usage_period_duration = some "P1M";
      usage_period_anchor = none;
      rollover_max = none;
      grant =
          some
            (record { amount = pos 100; priority = pos 100; expires_at = none; metadata = none });
    }
    ∷ record {
      feature_id = "f2";
      usage_period_duration = none;
      usage_period_anchor = none;
      rollover_max = none;
      grant = none;
    }
    ∷ []

abbrev subscribed : World
subscribed = (create_subscription_with_materialize env subscription entries world).1

subscribes :
    create_subscription_with_materialize env subscription entries world ≡ (ok tt, subscribed)
unfolding create_subscription_with_materialize insert_subscription materialize_entries
    entitlement_for grant_for reuse_or_create transaction try_modify new_ulid
subscribes = refl

create_subscription-IsMaterialized_example :
    (subscribed.db.subscriptions ≡ subscription ∷ [])
    × All (IsMaterialized env subscription subscribed.db) entries
create_subscription-IsMaterialized_example =
    create_subscription-IsMaterialized env subscription entries world subscribed tt subscribes

abbrev moved : World
moved = (change_subscription env subscription "p2" (pos (2 * day)) entries subscribed).1

moves :
    change_subscription env subscription "p2" (pos (2 * day)) entries subscribed ≡ (ok tt, moved)
unfolding change_subscription set_plan create_subscription_with_materialize insert_subscription
    materialize_entries entitlement_for grant_for reuse_or_create transaction try_modify modify
    new_ulid
moves = refl

change_subscription-IsMaterialized_example :
    (new : List GrantRow) × (moved.db.grants
      ≡ void_grants_of "s1" (pos (2 * day)) subscribed.db.grants ++ new)
    × (moved.db.subscriptions
        ≡ update_where
            (λ r. r.id == "s1")
            (λ r. record r { plan_id = "p2" })
            subscribed.db.subscriptions)
    × All
        (IsMaterialized env
          (record subscription { plan_id = "p2"; starts_at = pos (2 * day) })
          moved.db)
        entries
change_subscription-IsMaterialized_example =
    change_subscription-IsMaterialized env subscription "p2" (pos (2 * day)) entries subscribed
      moved tt moves
