-- ===== src/Store/Tests.antt =====
-- The theorems on the store at a small database.
use metery.Prelude.{
  ℕ, ◌+◌, ◌*◌, pos, true, false, ◌&&◌, ◌||◌, text_lt, not, none, some, [], ◌∷◌, any, filter, ◌==◌,
  ltb, if◌then◌else◌, ◌≡◌, refl, arith,
}
use metery.Time.{day}
use metery.Store.Rows.{Event, Meter, GrantRow, SubscriptionRow}
use metery.Store.Table.{is_value, is_none}
use metery.Store.Db.{Db, Env, World, ok, sqlite}
use metery.Store.Valid.{Write, change_subscription_call, perform}
use metery.Store.Valid.Atomic.{perform-atomic}
use metery.Store.Subscriptions.{change_subscription, set_plan}
use metery.Store.Db.{err, constraint, transaction, modify, try_modify}
use metery.Store.Rows.{SubscriptionEntry}
use metery.Store.Usage.{fetch_usage, ingest_event}
use metery.Store.Usage.Windows.{fetch_usage-adjacent, ingest_event-twice}
use metery.Store.Entitlements.{list_grants}
use metery.Store.Listings.{Lists, listings-IsPage}
use metery.Store.Usage.Answers.{IsAnswer, fetch_usage-IsAnswer}
use metery.Store.Usage.Map.{event_of, put_all, ingest_all, ingest_event-put_new}
use metery.Store.Subscriptions.{cancel_subscription}
use metery.Store.Subscriptions.Cancel.{
  is_running, is_live_grant_of, cancel_subscription-voids, cancel_subscription-twice,
}

abbrev env : Env
env = record {
  clock = λ n. pos (n * day);
  ulid = λ n. if ltb n 1 then "01A" else (if ltb n 2 then "01B" else "01C");
  driver = sqlite;
  encode_states = λ states. "[]";
  decode_states = λ text. some [];
  aggregate = λ name param events. some (pos 0);
}

abbrev event : Event
event = record {
  id = "e1";
  customer = "acme";
  kind = "api_call";
  time = pos (3 * day);
  payload = some "{}";
  created_at = pos (3 * day);
  processed_at = none;
}

abbrev calls : Meter
calls = record {
  id = "m1";
  slug = "calls";
  name = "Calls";
  aggregation = "count";
  event_type = "api_call";
  value_property = none;
  created_at = pos 0;
  archived_at = none;
}

abbrev grant : GrantRow
grant = record {
  id = "g1";
  entitlement_id = "ent1";
  amount = pos 100;
  priority = pos 100;
  effective_at = pos 0;
  expires_at = none;
  metadata = none;
  created_at = pos 0;
  voided_at = none;
  subscription_id = some "s1";
}

abbrev subscription : SubscriptionRow
subscription = record {
  id = "s1";
  customer_id = "c1";
  plan_id = "p1";
  starts_at = pos 0;
  ends_at = none;
  canceled_at = none;
  metadata = none;
  created_at = pos 0;
}

abbrev db : Db
db = record {
  customers = [];
  meters = calls ∷ [];
  features = [];
  entitlements = [];
  grants = grant ∷ record grant { id = "g2"; subscription_id = none } ∷ [];
  events = event ∷ record event { id = "e2"; time = pos (8 * day) } ∷ [];
  snapshots = [];
  plans = [];
  subscriptions = subscription ∷ [];
  users = [];
}

abbrev world : World
world = record { db = db; reads = 0; serial = 0 }

-- An event on the boundary of two windows counts in the second.
boundary_run :
    fetch_usage env "acme" calls (pos (3 * day)) (pos (8 * day)) world ≡ (ok (pos 1), world)
unfolding fetch_usage
boundary_run = refl

fetch_usage-adjacent_example :
    (n k : ℕ) × (fetch_usage env "acme" calls (pos 0) (pos (3 * day)) world ≡ (ok (pos n), world))
    × (fetch_usage env "acme" calls (pos (3 * day)) (pos (9 * day)) world ≡ (ok (pos k), world))
    × (fetch_usage env "acme" calls (pos 0) (pos (9 * day)) world ≡ (ok (pos (n + k)), world))
fetch_usage-adjacent_example =
    fetch_usage-adjacent env "acme" calls (pos 0) (pos (3 * day)) (pos (9 * day)) world refl
      (omega arith) (omega arith)

ingest_event-twice_example :
    let w' = (ingest_event (record event { id = "e3"; processed_at = some (pos 5) }) world).1 in
    ingest_event (record event { id = "e3"; time = pos 0 }) w' ≡ (ok tt, w')
ingest_event-twice_example =
    ingest_event-twice (record event { id = "e3"; processed_at = some (pos 5) })
      (record event { id = "e3"; time = pos 0 }) world refl

cancel_subscription-voids_example :
    let (r, w') = cancel_subscription "s1" (pos day) world in
    (r ≡ ok tt)
    × (any (is_running "s1") w'.db.subscriptions ≡ false)
    × (any (is_live_grant_of "s1") w'.db.grants ≡ false)
    × (filter (λ s. not (s.id == "s1")) w'.db.subscriptions
        ≡ filter (λ s. not (s.id == "s1")) world.db.subscriptions)
    × (filter (λ g. not (is_value g.subscription_id "s1")) w'.db.grants
        ≡ filter (λ g. not (is_value g.subscription_id "s1")) world.db.grants)
    × (w'.db.entitlements ≡ world.db.entitlements)
cancel_subscription-voids_example = cancel_subscription-voids "s1" (pos day) world

cancel_subscription-twice_example :
    let w' = (cancel_subscription "s1" (pos day) world).1 in
    cancel_subscription "s1" (pos (2 * day)) w' ≡ (ok tt, w')
cancel_subscription-twice_example = cancel_subscription-twice "s1" (pos day) (pos (2 * day)) world

abbrev entry : SubscriptionEntry
entry = record {
  feature_id = "f1";
  usage_period_duration = some "P1M";
  usage_period_anchor = none;
  rollover_max = some (pos 50);
  grant =
      some (record { amount = pos 100; priority = pos 100; expires_at = none; metadata = none });
}

abbrev other_plan : SubscriptionRow
other_plan = record subscription { id = "s2"; plan_id = "p2" }

-- A change to a plan that the customer is already on is refused, with its voided grants restored.
abbrev crowded : World
crowded = record world { db = record db { subscriptions = subscription ∷ other_plan ∷ [] } }

abbrev clash : Write
clash = change_subscription_call subscription "p2" (pos day) (entry ∷ [])

clash_fails : (perform env clash crowded).0 ≡ err constraint
unfolding perform change_subscription transaction modify try_modify set_plan
clash_fails = refl

perform-atomic_example : (perform env clash crowded).1.db ≡ crowded.db
perform-atomic_example = perform-atomic env clash crowded constraint clash_fails

listings-IsPage_example :
    Lists
      (λ g. g.id)
      (list_grants "ent1" true (pos 1) "")
      (λ g. (g.entitlement_id == "ent1" && text_lt "" g.id) && (true || is_none g.voided_at))
      1
      db.grants
      world
listings-IsPage_example = (listings-IsPage 1 "" "ent1" "" true world).5

ingest_event-put_new_example :
    event_of
      (ingest_all
        (record event { id = "e3"; processed_at = some (pos 5) }
          ∷ record event { id = "e1"; kind = "x" }
          ∷ [])
        world).db.events
      "e3"
    ≡ put_all
        (record event { id = "e3"; processed_at = some (pos 5) }
          ∷ record event { id = "e1"; kind = "x" }
          ∷ [])
        (event_of world.db.events)
        "e3"
ingest_event-put_new_example =
    ingest_event-put_new
      (record event { id = "e3"; processed_at = some (pos 5) }
        ∷ record event { id = "e1"; kind = "x" }
        ∷ [])
      world "e3"

-- A meter that sums and has no property to sum.
abbrev tokens : Meter
tokens = record calls { aggregation = "sum" }

fetch_usage-IsAnswer_example :
    let s = fetch_usage env "acme" tokens (pos 0) (pos (9 * day)) world in
    IsAnswer tokens.value_property s.0 × (s.1 ≡ world)
fetch_usage-IsAnswer_example =
    fetch_usage-IsAnswer env "acme" tokens (pos 0) (pos (9 * day)) world refl
