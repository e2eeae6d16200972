-- ===== src/Command/Authorised.antt =====
-- Which requests may change the tables.
use metery.Prelude.{◌≡◌, ◌⊎◌, inl, inr, refl, sym, ap, String}
use metery.Store.Db.{Env, World, Result, ok, err, Action, StoreError}
use metery.Service.Rpc.{Codec, RpcError}
use metery.Auth.Middleware.Admitted.{IsAdmitted, auth_middleware-IsAdmitted}
use metery.Auth.OAuth.{HttpError, Redirect, CallbackRequest, OAuthHandler, callback, login}
use metery.Auth.OAuth.SignIn.{IsSignIn, Outcome, callback-Outcome}
use metery.Web.Pages.{Display, Page}
use metery.Web.Console.Guarded.{IsGuarded, stranger, welcome, serve-IsGuarded}
use metery.Command.{
  ServeConfig, Request, rpc, console, google_callback, google_login, auth_logout, health,
  worker_run, handle,
}

-- Why a request may change the tables, which it leaves as `users` among others: it carries a key,
-- it signs a permitted user in, or it runs the worker.
pub data IsAuthorised {A : Type 0} (h : OAuthHandler) (config : ServeConfig) (w : World)
    : Request A → Type 0 where
  by_key :
      {auth_header : String} {next : Action RpcError A}
      → IsAdmitted config.api_keys auth_header
      → IsAuthorised h config w (rpc auth_header next)
  by_google :
      {r : CallbackRequest} (answer : Redirect)
      → IsSignIn h r answer w.db.users
      → IsAuthorised h config w (google_callback r)
  by_worker : IsAuthorised h config w worker_run

login-Unchanged : (h : OAuthHandler) (w : World) → w.db ≡ (login h w).1.db
unfolding login
login-Unchanged h w = through h.random_state refl
  where
    through : (s : Result String String) → h.random_state ≡ s → w.db ≡ (login h w).1.db
    through (ok state) e = rw (e, login) refl
    through (err x) e = rw (e, login) refl

guarded_same :
    (id : String) (w w' : World) (r : Result StoreError Page) → IsGuarded id w w' r → w.db ≡ w'.db
guarded_same id w w' r (stranger same answer out) = same
guarded_same id w w' r (welcome u p same answer named found for_u) = same

module _ {A M : Type 0} (codec : Codec M) (display : Display) (h : OAuthHandler)
    (config : ServeConfig) (env : Env) where
  callback_changes :
      (r : CallbackRequest) (w : World) (s : Result HttpError Redirect × World)
      → Outcome h r w s
      → (w.db ≡ s.1.db) ⊎ IsAuthorised {A = A} h config s.1 (google_callback r)
  callback_changes r w (ok answer, w') i = inr (by_google answer i)
  callback_changes r w (err e, w') same = inl (sym same)

  -- For any request to the server (a call of the API with any handler behind it, a page of the
  -- console, the routes of the sign-in, /health and /worker/run) in any world, either the
  -- tables stay as they are, or the call carries one of the configured keys, or the callback
  -- signed a permitted Google account in, or the request is /worker/run.
  pub handle-IsAuthorised :
      (req : Request A) (w : World)
      → let w' = (handle codec display h config env req w).1 in
        (w.db ≡ w'.db) ⊎ IsAuthorised h config w' req
  unfolding handle
  handle-IsAuthorised (rpc auth_header next) w =
      elim (auth_middleware-IsAdmitted config.api_keys auth_header next w) [
        | inl (admitted, same) ↦ inr (by_key admitted)
        | inr (out, same) ↦ inl (sym (ap (λ s. s.1.db) same))
      ]
  handle-IsAuthorised (console cookies route) w =
      inl (guarded_same _ w _ _ (serve-IsGuarded display env h.sign cookies route w))
  handle-IsAuthorised (google_callback r) w =
      callback_changes r w (callback h env r w) (callback-Outcome h env r w)
  handle-IsAuthorised google_login w = inl (login-Unchanged h w)
  handle-IsAuthorised auth_logout w = inl refl
  handle-IsAuthorised health w = inl refl
  handle-IsAuthorised worker_run w = inr by_worker
