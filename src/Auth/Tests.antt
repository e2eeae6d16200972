-- ===== src/Auth/Tests.antt =====
-- The theorems on authentication at small inputs.
use metery.Prelude.{
  ◌*◌, pos, true, some, String, List, [], ◌∷◌, ◌==◌, eq_iff, if◌then◌else◌, lacks, ◌≡◌, ◌≢◌, ◌⊎◌,
  ◌↔◌, sym,
}
use mathlib.Core.Bool.{true≢false}
use metery.Time.{day}
use metery.Store.Db.{Db, Env, World, Action, ok, err, sqlite, pure}
use metery.Service.Rpc.{unauthenticated, RpcError, refused}
use metery.Auth.Session.{session_cookie, cookie_of, session_set, user_id}
use metery.Auth.Session.Signed.{user_id-session_set}
use metery.Auth.Middleware.{auth_middleware}
use metery.Auth.Middleware.Admitted.{IsAdmitted, auth_middleware-IsAdmitted}
use metery.Auth.OAuth.{email_allowed, OAuthHandler, CallbackRequest, callback}
use metery.Auth.OAuth.Domains.{IsAt, email_allowed-IsAt}
use metery.Auth.OAuth.SignIn.{Outcome, callback-Outcome}

abbrev sign : String → String
sign text = if text == "u1" then "5f1e" else "0000"

abbrev cookies : List (String × String)
cookies = ("theme", "dark") ∷ (session_cookie, "u1.5f1e") ∷ []

named : ◌≢◌ {A = String} "u1" ""
named e = true≢false (sym ((eq_iff "u1" "").1 e))

user_id-session_set_example : (user_id sign cookies ≡ "u1") ↔ (
    (lacks b'.' "u1" ≡ true)
    × (cookie_of cookies session_cookie ≡ some (session_set sign "u1").value))
user_id-session_set_example = user_id-session_set sign cookies "u1" named

abbrev env : Env
env = record {
  clock = λ n. pos (30 * day);
  ulid = λ n. "01A";
  driver = sqlite;
  encode_states = λ states. "[]";
  decode_states = λ text. some [];
  aggregate = λ name param events. some (pos 0);
}

abbrev db : Db
db = record {
  customers = [];
  meters = [];
  features = [];
  entitlements = [];
  grants = [];
  events = [];
  snapshots = [];
  plans = [];
  subscriptions = [];
  users = [];
}

abbrev world : World
world = record { db = db; reads = 0; serial = 0 }

abbrev next : Action RpcError String
next = pure "done"

auth_middleware-IsAdmitted_example :
    ((IsAdmitted ("k1" ∷ "k2" ∷ []) "Bearer k2")
      × (auth_middleware ("k1" ∷ "k2" ∷ []) "Bearer k2" next world ≡ next world))
    ⊎ ((¬ IsAdmitted ("k1" ∷ "k2" ∷ []) "Bearer k2")
        × (auth_middleware ("k1" ∷ "k2" ∷ []) "Bearer k2" next world
            ≡ (err (refused unauthenticated "unauthenticated"), world)))
auth_middleware-IsAdmitted_example =
    auth_middleware-IsAdmitted ("k1" ∷ "k2" ∷ []) "Bearer k2" next world

abbrev handler : OAuthHandler
handler = record {
  sign = sign;
  allowed_domains = "example.com" ∷ [];
  random_state = ok "s1";
  auth_code_url = λ state. state;
  exchange = λ code. if code == "c1" then ok "t1" else err "bad code";
  fetch_user_info = λ token. ok (record { id = "g1"; email = "ada@example.com"; name = "Ada" });
}

abbrev request : CallbackRequest
request = record { cookies = ("oauth_state", "s1") ∷ []; state = "s1"; code = "c1" }

callback-Outcome_example : Outcome handler request world (callback handler env request world)
callback-Outcome_example = callback-Outcome handler env request world

email_allowed-IsAt_example : (email_allowed ("a.com" ∷ "b.org" ∷ []) "ada@b.org" ≡ true) ↔ (
    (◌≡◌ {A = List String} ("a.com" ∷ "b.org" ∷ []) []) ⊎ IsAt ("a.com" ∷ "b.org" ∷ []) "ada@b.org")
email_allowed-IsAt_example = email_allowed-IsAt ("a.com" ∷ "b.org" ∷ []) "ada@b.org"
