-- ===== src/Web/Tests.antt =====
-- The theorems on the console at a small database.
use Prim.Native.String.{String}
use metery.Prelude.{◌*◌, pos, none, some, [], ◌∷◌, List, if◌then◌else◌, ◌==◌}
use metery.Time.{day}
use metery.Store.Db.{Db, Env, World, sqlite}
use metery.Auth.Session.{session_cookie, user_id}
use metery.Web.Pages.{Display}
use metery.Web.Console.{customer_path, serve}
use metery.Web.Console.Guarded.{IsGuarded, serve-IsGuarded}

abbrev display : Display
display = record {
  format = λ t. "1970-01-01 00:00:00";
  itoa = λ n. "1";
  unmarshal_slugs = λ text. none;
  unmarshal_entries = λ text. none;
}

abbrev env : Env
env = record {
  clock = λ n. pos (30 * day);
  ulid = λ n. "01A";
  driver = sqlite;
  encode_states = λ states. "[]";
  decode_states = λ text. some [];
  aggregate = λ name param events. some (pos 0);
}

abbrev db : Db
db = record {
  customers =
      record {
        id = "c1";
        key = "acme";
        name = "Acme";
        metadata = none;
        created_at = pos 0;
        deactivated_at = none;
      }
      ∷ [];
  meters = [];
  features = [];
  entitlements =
      record {
        id = "ent1";
        customer_id = "c1";
        feature_id = "f1";
        usage_period_duration = none;
        usage_period_anchor = none;
        rollover_max = none;
        created_at = pos 0;
        deleted_at = none;
        subscription_id = none;
      }
      ∷ [];
  grants = [];
  events = [];
  snapshots = [];
  plans = [];
  subscriptions = [];
  users =
      record {
        id = "u1";
        google_id = "g1";
        email = "ada@example.com";
        name = "Ada";
        created_at = pos 0;
      }
      ∷ [];
}

abbrev world : World
world = record { db = db; reads = 0; serial = 0 }

abbrev sign : String → String
sign text = if text == "u1" then "5f1e" else "0000"

abbrev cookies : List (String × String)
cookies = (session_cookie, "u1.5f1e") ∷ []

serve-IsGuarded_example :
    IsGuarded
      (user_id sign cookies)
      world
      (serve display env sign cookies (customer_path "acme") world).1
      (serve display env sign cookies (customer_path "acme") world).0
serve-IsGuarded_example = serve-IsGuarded display env sign cookies (customer_path "acme") world
