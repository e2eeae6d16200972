-- ===== src/Command/Server/Tests.antt =====
-- The theorems on the server's steps at a short run of it.
use metery.Prelude.{none, some, ◌≡◌, String, ℕ, ◌≤◌, pos, [], ◌∷◌, refl}
use metery.Ledger.Deduct.{Sorter}
use metery.Ledger.Deduct.Insertion.{by_insertion}
use metery.Store.Rows.{Meter}
use metery.Store.Usage.{fetch_usage}
use metery.Command.Server.Usage.{Reach-fetch_usage}
use metery.Store.Db.{ok, Db, World}
use metery.Store.Valid.{IsValid}
use metery.Store.Keys.{IsKeyed}
use metery.Store.History.{IsHistory, history}
use metery.Store.History.Writes.{history-Writes}
use metery.Worker.Loop.{tick, done, run_recurrence_worker}
use metery.Command.{rpc}
use metery.Command.Tests.{codec, display, env, oauth, config}
use metery.Command.Api.{
  Call, create_customer_call, deactivate_customer_call, ingest_event_call, dispatch,
}
use metery.Command.Server.{after_request, Reach, start, next, called, worked}
use metery.Command.Server.Kept.{Reach-rel}
use metery.Command.Server.Invariants.{Reach-IsValid, Reach-IsHistory}

abbrev empty : Db
empty = record {
  customers = [];
  meters = [];
  features = [];
  entitlements = [];
  grants = [];
  events = [];
  snapshots = [];
  plans = [];
  subscriptions = [];
  users = [];
}

abbrev initial : World
initial = record { db = empty; reads = 0; serial = 0 }

abbrev sorter : Sorter
sorter = by_insertion

-- A customer is created, the worker ticks, and the customer is deactivated.
abbrev created : World
created =
    after_request sorter codec 9 display oauth config env
      (rpc "Bearer k1" (dispatch sorter codec 9 env (create_customer_call "acme" "Acme"))) initial

abbrev ticked : World
ticked = run_recurrence_worker codec env (tick ∷ done ∷ tick ∷ []) created

abbrev deactivated : World
deactivated =
    after_request sorter codec 9 display oauth config env
      (rpc "Bearer k1" (dispatch sorter codec 9 env (deactivate_customer_call "acme"))) ticked

abbrev run : Reach sorter codec 9 display oauth config env initial deactivated
run =
    next ticked deactivated
      (next created ticked
        (next initial created start (called "Bearer k1" (create_customer_call "acme" "Acme")))
        (worked (tick ∷ done ∷ tick ∷ [])))
      (called "Bearer k1" (deactivate_customer_call "acme"))

Reach-rel_example : IsHistory initial.db deactivated.db
Reach-rel_example =
    Reach-rel history history-Writes codec env sorter 9 display oauth config initial deactivated run

Reach-IsValid_example : IsValid deactivated.db × IsKeyed deactivated.db
Reach-IsValid_example =
    Reach-IsValid codec env sorter 9 display oauth config initial deactivated run
      (record { entitlements = refl; grants = refl; subscriptions = refl; amounts = tt })
      (record {
        customers = refl;
        meters = refl;
        features = refl;
        plans = refl;
        aggregations = tt;
        events = refl;
        snapshots = refl;
        users = refl;
      })

Reach-IsHistory_example : IsHistory created.db deactivated.db
Reach-IsHistory_example =
    Reach-IsHistory codec env sorter 9 display oauth config created deactivated (
      next ticked deactivated (next created ticked start (worked (tick ∷ done ∷ tick ∷ [])))
        (called "Bearer k1" (deactivate_customer_call "acme")))

abbrev calls : Meter
calls = record {
  id = "m1";
  slug = "calls";
  name = "Calls";
  aggregation = "count";
  event_type = "api_call";
  value_property = none;
  created_at = pos 0;
  archived_at = none;
}

-- A call that sends an event.
abbrev send : Call String
send = ingest_event_call (record {
  id = "e1";
  customer = "acme";
  kind = "api_call";
  time = some (pos 5);
  payload = none;
})

abbrev sent : World
sent =
    after_request sorter codec 9 display oauth config env
      (rpc "Bearer k1" (dispatch sorter codec 9 env send)) initial

Reach-fetch_usage_example :
    (n k : ℕ) × (fetch_usage env "acme" calls (pos 0) (pos 9) initial ≡ (ok (pos n), initial))
    × (fetch_usage env "acme" calls (pos 0) (pos 9) sent ≡ (ok (pos k), sent))
    × (n ≤ k)
Reach-fetch_usage_example =
    Reach-fetch_usage codec env sorter 9 display oauth config initial sent
      (next initial sent start (called "Bearer k1" send)) "acme" calls (pos 0) (pos 9) refl
