-- ===== src/Command/Tests.antt =====
-- The theorems on the server at small settings.
use metery.Prelude.{◌*◌, pos, none, some, String, [], ◌∷◌, ◌≡◌, ◌⊎◌, refl, All}
use metery.Time.{day}
use metery.Store.Db.{Env, World, sqlite, ok, modify}
use metery.Service.Rpc.{Codec}
use metery.Auth.OAuth.{OAuthHandler}
use metery.Web.Pages.{Display}
use metery.Command.{ServeConfig, Request, rpc, handle}
use metery.Command.Texts.{split, trim_space, split_csv}
use metery.Command.Texts.Parts.{IsPart, split_csv-IsPart}
use metery.Command.Authorised.{IsAuthorised, handle-IsAuthorised}

abbrev pub codec : Codec String
codec = record {
  parse_duration = λ text. none;
  decode_array = λ text. some [];
  decode_entry = λ text. none;
  encode_entry = λ e. none;
  marshal = λ m. some m;
  unmarshal = λ text. some text;
}

abbrev pub display : Display
display = record {
  format = λ t. "1970-01-01 00:00:00";
  itoa = λ n. "1";
  unmarshal_slugs = λ text. none;
  unmarshal_entries = λ text. none;
}

abbrev pub env : Env
env = record {
  clock = λ n. pos (30 * day);
  ulid = λ n. "01A";
  driver = sqlite;
  encode_states = λ states. "[]";
  decode_states = λ text. some [];
  aggregate = λ name param events. some (pos 0);
}

abbrev world : World
world = record {
  db = record {
    customers = [];
    meters = [];
    features = [];
    entitlements = [];
    grants = [];
    events = [];
    snapshots = [];
    plans = [];
    subscriptions = [];
    users =
        record {
          id = "u1";
          google_id = "g1";
          email = "ada@example.com";
          name = "Ada";
          created_at = pos 0;
        }
        ∷ [];
  };
  reads = 0;
  serial = 0;
}

abbrev pub oauth : OAuthHandler
oauth = record {
  sign = λ text. "5f1e";
  allowed_domains = [];
  random_state = ok "s1";
  auth_code_url = λ state. state;
  exchange = λ code. ok "t1";
  fetch_user_info = λ token. ok (record { id = "g1"; email = "ada@example.com"; name = "Ada" });
}

abbrev pub config : ServeConfig
config = record {
  driver = sqlite;
  migrate = none;
  session_secret = "secret";
  client_id = "";
  client_secret = "";
  redirect_url = "http://localhost:8080/auth/google/callback";
  allowed_domains = [];
  api_keys = "k1" ∷ "k2" ∷ [];
  hostname = "http://localhost:8080";
  addr = ":8080";
}

-- A call of the API that removes all users.
abbrev purge : Request (Unit {0})
purge = rpc "Bearer k2" (modify (λ db. record db { users = [] }))

handle-IsAuthorised_example :
    (world.db ≡ (handle codec display oauth config env purge world).1.db)
    ⊎ IsAuthorised oauth config (handle codec display oauth config env purge world).1 purge
handle-IsAuthorised_example = handle-IsAuthorised codec display oauth config env purge world

split_csv-IsPart_example : All IsPart (split_csv " a.com, ,b.org")
split_csv-IsPart_example = split_csv-IsPart " a.com, ,b.org"

two_parts : split_csv " a.com, ,b.org" ≡ "a.com" ∷ "b.org" ∷ []
unfolding split_csv split trim_space
two_parts = refl
