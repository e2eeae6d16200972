-- ===== src/Command.antt =====
-- cmd/metery/main.go, and internal/worker/run_once.go behind its route: the settings that `serve`
-- reads from the environment, and the routes of its server.
pub mod Texts
pub mod Api
pub mod Server
pub mod Authorised
mod Tests
use Prim.Native.String.{◌++◌ as str_append}
use metery.Prelude.{
  Bool, true, false, ◌||◌, Option, none, some, String, List, ◌==◌, if◌then◌else◌, has_prefix,
}
use metery.Store.Db.{Env, World, Driver, sqlite, pgx, Result, StoreError, Action}
use metery.Service.Rpc.{RpcError, Codec}
use metery.Auth.Middleware.{auth_middleware}
use metery.Auth.OAuth.{HttpError, Redirect, CallbackRequest, OAuthHandler, login, callback, logout}
use metery.Web.Pages.{Display, Page}
use metery.Web.Console.{Route, serve}
use metery.Worker.{Tally, process_recurrence}
use Texts.{split, split_csv, is_lowered}

unfoldable pub get_driver : String → Driver
get_driver url =
    if has_prefix url "postgres://" || has_prefix url "postgresql://" then pgx else sqlite

-- The dialect and the directory that `runMigrations` sets for goose.
unfoldable pub migrations_of : Driver → String × String
migrations_of pgx = ("postgres", "postgres")
migrations_of sqlite = ("sqlite", "sqlite")

-- The environment: `os.Getenv`, empty for a variable that is not set.
unfoldable pub get_env_or_default : (String → String) → String → String → String
get_env_or_default getenv key def = if getenv key == "" then def else getenv key

-- none stands for `log.Fatalf`.
unfoldable pub must_env : (String → String) → String → Option String
must_env getenv key = if getenv key == "" then none else some (getenv key)

unfoldable pub database_url : (String → String) → String
database_url getenv =
    get_env_or_default getenv "DATABASE_URL" "file:metery.db?cache=shared&mode=rwc"

-- The flag, or else the variable.
unfoldable pub do_migrate : (String → String) → Bool → Bool
do_migrate getenv flag =
    let value = getenv "MIGRATE" in
    flag || (is_lowered value "true" || (is_lowered value "1" || is_lowered value "yes"))

-- The settings of the server.
pub record ServeConfig : Type 0 where
  pub driver : Driver
  pub migrate : Option (String × String)
  pub session_secret : String
  pub client_id : String
  pub client_secret : String
  pub redirect_url : String
  pub allowed_domains : List String
  pub api_keys : List String
  pub hostname : String
  pub addr : String

abbrev pub config_with : (String → String) → String → Bool → String → ServeConfig
config_with getenv db_url flag secret =
    let hostname = get_env_or_default getenv "HOSTNAME" "http://localhost:8080" in
    record {
      driver = get_driver db_url;
      migrate = if do_migrate getenv flag then some (migrations_of (get_driver db_url)) else none;
      session_secret = secret;
      client_id = getenv "GOOGLE_CLIENT_ID";
      client_secret = getenv "GOOGLE_CLIENT_SECRET";
      redirect_url = str_append hostname "/auth/google/callback";
      allowed_domains = split_csv (getenv "ALLOWED_DOMAINS");
      api_keys = split b',' (getenv "API_KEYS");
      hostname = hostname;
      addr = str_append ":" (get_env_or_default getenv "PORT" "8080");
    }

-- The start of `serve`, which ends, with the migrations done, without a secret for the sessions.
unfoldable pub serve_config : (String → String) → String → Bool → Option ServeConfig
serve_config getenv db_url flag = elim (must_env getenv "SESSION_SECRET") [
  | none ↦ none
  | some secret ↦ some (config_with getenv db_url flag secret)
]

-- A request, by the route that takes it. A call of the API is its header and what its handler does
-- with its message; a request of the console has its cookies.
pub data Request (A : Type 0) : Type 0 where
  rpc : String → Action RpcError A → Request A
  console : List (String × String) → Route → Request A
  google_callback : CallbackRequest → Request A
  google_login auth_logout health worker_run : Request A

pub data Response (A : Type 0) : Type 0 where
  rpc_response : Result RpcError A → Response A
  page_response : Result StoreError Page → Response A
  redirect_response : Result HttpError Redirect → Response A
  text_response : String → Response A

-- `RunOnce`: what the pass answers is only logged.
unfoldable pub run_once : {M : Type 0} → Codec M → Env → World → World
run_once codec env w = (process_recurrence codec env w).1

module _ {A M : Type 0} (codec : Codec M) (display : Display) (h : OAuthHandler)
    (config : ServeConfig) (env : Env) where
  -- The routes of the server.
  unfoldable pub handle : Request A → World → Response A × World
  handle (rpc auth_header next) w =
      let (r, w') = auth_middleware config.api_keys auth_header next w in (rpc_response r, w')
  handle (console cookies route) w =
      let (r, w') = serve display env h.sign cookies route w in (page_response r, w')
  handle (google_callback r) w =
      let (answer, w') = callback h env r w in (redirect_response answer, w')
  handle google_login w = let (answer, w') = login h w in (redirect_response answer, w')
  handle auth_logout w = (redirect_response (Result.ok logout), w)
  handle health w = (text_response "ok", w)
  handle worker_run w = (text_response "{\"status\":\"ok\"}", run_once codec env w)
