-- ===== src/Auth/OAuth.antt =====
-- internal/auth/oauth.go: signing in with Google. Who is asked over the network is a parameter.
pub mod SignIn
pub mod Domains
use Prim.Native.String.{◌++◌}
use metery.Prelude.{
  ℕ, ◌*◌, ℤ, pos, Bool, true, false, not, Option, none, some, String, List, [], ◌∷◌, any, ◌==◌,
  ◌||◌, if◌then◌else◌, has_suffix,
}
use metery.Store.Db.{Env, StoreError, Result, ok, err, World, Action, ◌>>=◌, ◌>>◌, pure, fail}
use metery.Store.Plans.{upsert_user}
use metery.Auth.Session.{Cookie, session_set, session_clear, cookie_of}

pub record GoogleUserInfo : Type 0 where
  pub id : String
  pub email : String
  pub name : String

-- `http.Error` with a status and a text, or with the text of the store's error.
pub data HttpError : Type 0 where
  http_error : ℕ → String → HttpError
  upsert_failed : StoreError → HttpError

-- A redirect with the cookies that it sets.
pub record Redirect : Type 0 where
  pub cookies : List Cookie
  pub target : String

-- The request of a callback: its cookies, and the query's state and code.
pub record CallbackRequest : Type 0 where
  pub cookies : List (String × String)
  pub state : String
  pub code : String

-- The handler, and what it calls: the signature of the session cookie, the random state, the
-- address of the consent page, the exchange of a code for a token, and the user's data for a token;
-- an error is its text.
pub record OAuthHandler : Type 0 where
  pub sign : String → String
  pub allowed_domains : List String
  pub random_state : Result String String
  pub auth_code_url : String → String
  pub exchange : String → Result String String
  pub fetch_user_info : String → Result String GoogleUserInfo

abbrev pub oauth_state : String
oauth_state = "oauth_state"

unfoldable pub state_cookie : String → Cookie
state_cookie state = record {
  name = oauth_state;
  value = state;
  path = "/";
  http_only = true;
  secure = true;
  same_site_lax = true;
  max_age = pos (10 * 60);
}

-- No domain means every email.
unfoldable pub email_allowed : List String → String → Bool
email_allowed [] email = true
email_allowed (d ∷ domains) email = any (λ domain. has_suffix email ("@" ++ domain)) (d ∷ domains)

-- A call that is an error or a value.
abbrev pub attempt : {A : Type 0} → Result String A → (String → HttpError) → Action HttpError A
attempt (ok a) f = pure a
attempt (err e) f = fail (f e)

abbrev pub refuse_when : Bool → HttpError → Action HttpError (Unit {0})
refuse_when test e = if test then fail e else pure tt

unfoldable pub login : OAuthHandler → Action HttpError Redirect
login h = do
  state ← attempt h.random_state (http_error 500)
  pure (record { cookies = state_cookie state ∷ []; target = h.auth_code_url state })

abbrev pub upserted : {A : Type 0} → Action StoreError A → Action HttpError A
upserted m w =
    let (r, w') = m w in elim r [ ok a ↦ (ok a, w') | err e ↦ (err (upsert_failed e), w') ]

-- The user that is stored for the account, in a session.
unfoldable pub start_session : OAuthHandler → Env → GoogleUserInfo → Action HttpError Redirect
start_session h env info = do
  user ← upserted (upsert_user env info.id info.email info.name)
  pure (record { cookies = session_set h.sign user.id ∷ []; target = "/" })

-- The part after the state has been compared.
unfoldable pub sign_in : OAuthHandler → Env → String → Action HttpError Redirect
sign_in h env code = do
  tok ← attempt (h.exchange code) (λ e. http_error 401 ("exchange failed: " ++ e))
  info ← attempt (h.fetch_user_info tok) (http_error 500)
  refuse_when (not (email_allowed h.allowed_domains info.email))
      (http_error 403 "email not allowed")
  start_session h env info

-- The state of the query against the one that the cookie keeps.
unfoldable pub check_state : Option String → String → Action HttpError (Unit {0})
check_state none state = fail (http_error 400 "missing state")
check_state (some want) state =
    if want == ""
    then fail (http_error 400 "missing state")
    else refuse_when (not (state == want)) (http_error 400 "state mismatch")

unfoldable pub callback : OAuthHandler → Env → CallbackRequest → Action HttpError Redirect
callback h env r = do check_state (cookie_of r.cookies oauth_state) r.state; sign_in h env r.code

unfoldable pub logout : Redirect
logout = record { cookies = session_clear ∷ []; target = "/" }
