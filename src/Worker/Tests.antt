-- ===== src/Worker/Tests.antt =====
-- A pass of the worker over one subscription to a monthly plan.
use metery.Prelude.{
  ◌≡◌, refl, arith, ◌+ℤ◌, ◌-ℤ◌, ◌*ℤ◌, div_ℤ, mod_ℤ, ◌*◌, pos, false, none, some, String, [], ◌∷◌,
  ◌==◌, ltb, if◌then◌else◌,
}
use metery.Time.{Time, day, add_date}
use metery.Time.Calendar.{month_start, month_of}
use metery.Duration.{Duration, IsForward}
use metery.Worker.Latest.{from_grant}
use metery.Store.Rows.{GrantRow}
use metery.Store.Db.{Db, Env, World, sqlite, ok}
use metery.Store.Subscriptions.{RecurringSubscription}
use metery.Service.Rpc.{Codec, PlanEntry}
use metery.Worker.{process_recurrence, process_entry, entitlement_by_feature}
use metery.Worker.Due.{never, IsDue, with_child, process_entry-emits}
use metery.Worker.Emissions.{Emits, process_recurrence-Emits}

abbrev weekly : Duration
weekly = record {
  years = pos 0;
  months = pos 0;
  weeks = pos 1;
  days = pos 0;
  hours = pos 0;
  minutes = pos 0;
  seconds = pos 0;
  negative = false;
}

abbrev template : PlanEntry
template = record {
  feature_slug = "calls";
  usage_period = none;
  rollover = none;
  grant = some (record { amount = pos 10; priority = none; expiration = none });
}

abbrev codec : Codec String
codec = record {
  parse_duration = λ text. if text == "P1W" then some weekly else none;
  decode_array = λ text. some (text ∷ []);
  decode_entry = λ text. some template;
  encode_entry = λ e. some "{}";
  marshal = λ m. some m;
  unmarshal = λ text. some text;
}

abbrev env : Env
env = record {
  clock = λ n. pos (30 * day);
  ulid = λ n. if ltb n 1 then "01A" else "01B";
  driver = sqlite;
  encode_states = λ states. "[]";
  decode_states = λ text. some [];
  aggregate = λ name param events. some (pos 0);
}

abbrev db : Db
db = record {
  customers = [];
  meters = [];
  features =
      record {
        id = "f1";
        slug = "calls";
        name = "Calls";
        meter_id = some "m1";
        created_at = pos 0;
        archived_at = none;
      }
      ∷ [];
  entitlements =
      record {
        id = "ent1";
        customer_id = "c1";
        feature_id = "f1";
        usage_period_duration = none;
        usage_period_anchor = none;
        rollover_max = none;
        created_at = pos 0;
        deleted_at = none;
        subscription_id = none;
      }
      ∷ [];
  grants = [];
  events = [];
  snapshots = [];
  plans =
      record {
        id = "p1";
        slug = "basic";
        name = "Basic";
        entries = "[{}]";
        recurrence_interval = some "P1W";
        recurrence_anchor = none;
        metadata = none;
        created_at = pos 0;
        archived_at = none;
      }
      ∷ [];
  subscriptions =
      record {
        id = "s1";
        customer_id = "c1";
        plan_id = "p1";
        starts_at = pos (20 * day);
        ends_at = none;
        canceled_at = none;
        metadata = none;
        created_at = pos 0;
      }
      ∷ [];
  users = [];
}

abbrev world : World
world = record { db = db; reads = 0; serial = 0 }

process_recurrence-Emits_example : Emits world.db (process_recurrence codec env world).1.db
process_recurrence-Emits_example = process_recurrence-Emits codec env world

abbrev recurring : RecurringSubscription
recurring = record {
  subscription = record {
    id = "s1";
    customer_id = "c1";
    plan_id = "p1";
    starts_at = pos (20 * day);
    ends_at = none;
    canceled_at = none;
    metadata = none;
    created_at = pos 0;
  };
  plan = record {
    id = "p1";
    slug = "basic";
    name = "Basic";
    entries = "[{}]";
    recurrence_interval = some "P1W";
    recurrence_anchor = none;
    metadata = none;
    created_at = pos 0;
    archived_at = none;
  };
  entitlement_by_feature = ("f1", "ent1") ∷ [];
}

weekly-IsForward : IsForward weekly
weekly-IsForward = ground arith

-- Two grants that the subscription already has, the later one in front.
abbrev emission : String → Time → GrantRow
emission id at = record {
  id = id;
  entitlement_id = "ent1";
  amount = pos 10;
  priority = pos 100;
  effective_at = at;
  expires_at = none;
  metadata = none;
  created_at = at;
  voided_at = none;
  subscription_id = some "s1";
}

abbrev granted : World
granted = record world {
  db = record db { grants = emission "g2" (pos (27 * day)) ∷ emission "g1" (pos (20 * day)) ∷ [] };
}

-- The week after the later grant ends on day 34, and the pass is on day 40.
granted-IsDue : IsDue codec env (pos (40 * day)) weekly recurring template granted
unfolding entitlement_by_feature add_date ◌+ℤ◌ ◌-ℤ◌ ◌*ℤ◌ div_ℤ mod_ℤ month_start month_of
granted-IsDue = record {
  forward = weekly-IsForward;
  grant = record { amount = pos 10; priority = none; expiration = none };
  has_grant = refl;
  feature = _;
  has_feature = refl;
  entitlement = "ent1";
  earlier = [];
  later = [];
  entitled = refl;
  counts = refl;
  base = pos (27 * day);
  counted_from = from_grant refl (refl, (refl, tt));
  expires = none;
  expiry = never refl refl;
  begun = refl;
  positive = refl;
  apart = refl;
}

process_entry-emits_example :
    process_entry codec env
      (pos (40 * day))
      weekly
      recurring
      template
      (record { emitted = 0; skipped = 0 })
      granted
    ≡ (
      ok (record { emitted = 1; skipped = 0 }),
      with_child codec env (pos (40 * day)) weekly recurring template granted granted-IsDue,
    )
process_entry-emits_example =
    process_entry-emits codec env (pos (40 * day)) weekly recurring template granted granted-IsDue
      (record { emitted = 0; skipped = 0 })
