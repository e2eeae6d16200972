-- ===== src/Service/Tests.antt =====
-- A request for the value of an entitlement.
mod Created
use metery.Prelude.{
  ◌*◌, pos, none, some, String, [], ◌∷◌, true, ◌≡◌, refl, arith, ltb, if◌then◌else◌,
}
use metery.Time.{day, truncate_second}
use metery.Ledger.Deduct.Insertion.{by_insertion}
use metery.Store.Rows.{Customer, Meter, Feature, EntitlementRow}
use metery.Store.Catalog
use metery.Service.Customers
use metery.Service.Features
use metery.Service.Customers.RoundTrip.{get_customer-create_customer}
use metery.Service.Features.RoundTrip.{get_meter-create_meter}
use metery.Store.Db.{new_ulid, now_second, try_modify, Db, Env, World, sqlite, ok}
use metery.Service.Rpc.{Codec}
use metery.Service.Entitlements.{
  GetEntitlementValueRequest, get_entitlement_value, entitlement_value,
}
use metery.Service.Entitlements.Credits.{IsCounted, get_entitlement_value-credits}
use metery.Service.Entitlements.Shape.{IsValue, get_entitlement_value-IsValue}
use metery.Service.Entitlements.Reads.{TakesSnapshots, get_entitlement_value-TakesSnapshots}

abbrev codec : Codec String
codec = record {
  parse_duration = λ text. none;
  decode_array = λ text. some (text ∷ []);
  decode_entry = λ text. none;
  encode_entry = λ e. some "{}";
  marshal = λ m. some m;
  unmarshal = λ text. some text;
}

abbrev pub env : Env
env = record {
  clock = λ n. pos (30 * day);
  ulid = λ n. if ltb n 1 then "01A" else "01B";
  driver = sqlite;
  encode_states = λ states. "[]";
  decode_states = λ text. some [];
  aggregate = λ name param events. some (pos 0);
}

abbrev pub acme : Customer
acme = record {
  id = "c1";
  key = "acme";
  name = "Acme";
  metadata = none;
  created_at = pos 0;
  deactivated_at = none;
}

abbrev pub calls : Meter
calls = record {
  id = "m1";
  slug = "calls";
  name = "Calls";
  aggregation = "count";
  event_type = "api_call";
  value_property = none;
  created_at = pos 0;
  archived_at = none;
}

abbrev pub calls_feature : Feature
calls_feature = record {
  id = "f1";
  slug = "calls";
  name = "Calls";
  meter_id = some "m1";
  created_at = pos 0;
  archived_at = none;
}

abbrev pub entitlement : EntitlementRow
entitlement = record {
  id = "ent1";
  customer_id = "c1";
  feature_id = "f1";
  usage_period_duration = none;
  usage_period_anchor = none;
  rollover_max = none;
  created_at = pos 0;
  deleted_at = none;
  subscription_id = none;
}

abbrev pub db : Db
db = record {
  customers = acme ∷ [];
  meters = calls ∷ [];
  features = calls_feature ∷ [];
  entitlements = entitlement ∷ [];
  grants =
      record {
        id = "g1";
        entitlement_id = "ent1";
        amount = pos 100;
        priority = pos 100;
        effective_at = pos 0;
        expires_at = none;
        metadata = none;
        created_at = pos 0;
        voided_at = none;
        subscription_id = none;
      }
      ∷ [];
  events =
      record {
        id = "e1";
        customer = "acme";
        kind = "api_call";
        time = pos day;
        payload = none;
        created_at = pos day;
        processed_at = none;
      }
      ∷ [];
  snapshots = [];
  plans = [];
  subscriptions = [];
  users = [];
}

abbrev pub world : World
world = record { db = db; reads = 0; serial = 0 }

abbrev request : GetEntitlementValueRequest
request = record {
  customer_id_or_key = "acme";
  feature_id_or_slug = "calls";
  at = none;
  cost = some (pos 7);
}

get_entitlement_value-TakesSnapshots_example :
    TakesSnapshots world.db (get_entitlement_value by_insertion codec 10 env request world).1.db
get_entitlement_value-TakesSnapshots_example =
    get_entitlement_value-TakesSnapshots by_insertion codec 10 env request world

abbrev counted : IsCounted by_insertion codec 10 env request world
counted = record {
  customer = acme;
  has_customer = refl;
  feature = calls_feature;
  has_feature = refl;
  meter_id = "m1";
  metered = refl;
  meter = calls;
  has_meter = refl;
  counts = refl;
  entitlement = entitlement;
  entitled = refl;
  no_period = refl;
}

get_entitlement_value-credits_example :
    (get_entitlement_value by_insertion codec 10 env request world).0
    ≡ ok (record {
      has_access = true;
      balance = some (pos 99);
      usage = some (pos 1);
      overage = some (pos 0);
    })
unfolding entitlement_value truncate_second
get_entitlement_value-credits_example =
    get_entitlement_value-credits by_insertion codec 10 env request world counted
      ((refl, omega arith), tt) (omega arith) (omega arith)

get_entitlement_value-IsValue_example : IsValue (some (pos 7)) (record {
  has_access = true;
  balance = some (pos 99);
  usage = some (pos 1);
  overage = some (pos 0);
})
get_entitlement_value-IsValue_example =
    get_entitlement_value-IsValue by_insertion codec 10 env request _ world
      get_entitlement_value-credits_example
