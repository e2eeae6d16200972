-- ===== src/Auth/Kept.antt =====
-- internal/auth/ against a relation that the writes of the store keep.
use metery.Prelude.{
  Bool, true, false, not, Option, none, some, String, List, any, ◌==◌, Bool-cases, inl, inr,
  has_prefix, drop_prefix,
}
use metery.Store.Db.{Env, World, Result, ok, err, StoreError, Action}
use metery.Store.Db.Keeps.{Relation, Keeps, Keeps-pure, Keeps-bind, Keeps-seq}
use metery.Store.Writes.{Writes}
use metery.Store.Writes.Actions.{upsert_user-Keeps}
use metery.Service.Rpc.{RpcError}
use metery.Auth.Middleware.{valid_keys, bearer, auth_middleware}
use metery.Auth.Session.{cookie_of}
use metery.Auth.OAuth.{
  HttpError, http_error, GoogleUserInfo, CallbackRequest, OAuthHandler, oauth_state, email_allowed,
  attempt, refuse_when, login, upserted, start_session, sign_in, check_state, callback,
}

module _ (R : Relation) where
  pub auth_middleware-Keeps :
      {A : Type 0} (keys : List String) (header : String) (next : Action RpcError A)
      → Keeps R next
      → Keeps R (auth_middleware keys header next)
  unfolding auth_middleware
  auth_middleware-Keeps keys header next k = elim (Bool-cases (header == "")) [
    | inl e ↦ record { kept = λ w. rw (e, auth_middleware) (R.rel_refl w.db) }
    | inr e ↦ elim (Bool-cases (has_prefix header bearer)) [
      | inr p ↦ record { kept = λ w. rw (e, p, auth_middleware) (R.rel_refl w.db) }
      | inl p ↦
          elim (Bool-cases (any (λ key. drop_prefix header bearer == key) (valid_keys keys))) [
            | inr a ↦ record { kept = λ w. rw (e, p, a, auth_middleware) (R.rel_refl w.db) }
            | inl a ↦ record { kept = λ w. rw (e, p, a, auth_middleware) (k.kept w) }
          ]
    ]
  ]

  attempt-Keeps :
      {A : Type 0} (r : Result String A) (f : String → HttpError) → Keeps R (attempt r f)
  attempt-Keeps (ok a) f = Keeps-pure R a
  attempt-Keeps (err e) f = record { kept = λ w. R.rel_refl w.db }

  refuse_when-Keeps : (test : Bool) (e : HttpError) → Keeps R (refuse_when test e)
  refuse_when-Keeps true e = record { kept = λ w. R.rel_refl w.db }
  refuse_when-Keeps false e = Keeps-pure R tt

  upserted-Keeps : {A : Type 0} {m : Action StoreError A} → Keeps R m → Keeps R (upserted m)
  upserted-Keeps {A} {m} k = record { kept = λ w. through w (m w) (k.kept w) }
    where
      through :
          (w : World) (s : Result StoreError A × World)
          → R.rel w.db s.1.db
          → R.rel w.db ((upserted (λ _. s)) w).1.db
      through w (ok a, w') h = h
      through w (err e, w') h = h

  check_state-Keeps : (want : Option String) (state : String) → Keeps R (check_state want state)
  unfolding check_state
  check_state-Keeps none state = record { kept = λ w. R.rel_refl w.db }
  check_state-Keeps (some want) state = elim (Bool-cases (want == "")) [
    | inl e ↦ record { kept = λ w. rw (e, check_state) (R.rel_refl w.db) }
    | inr e ↦
        rw (e, check_state)
          (refuse_when-Keeps (not (state == want)) (http_error 400 "state mismatch"))
  ]

  pub login-Keeps : (h : OAuthHandler) → Keeps R (login h)
  unfolding login
  login-Keeps h =
      Keeps-bind R (attempt-Keeps h.random_state (http_error 500)) (λ state. Keeps-pure R _)

module _ (R : Relation) (writes : Writes R) (env : Env) (h : OAuthHandler) where
  start_session-Keeps : (info : GoogleUserInfo) → Keeps R (start_session h env info)
  unfolding start_session
  start_session-Keeps info =
      Keeps-bind R (upserted-Keeps R (upsert_user-Keeps R writes env info.id info.email info.name))
        (λ user. Keeps-pure R _)

  pub callback-Keeps : (r : CallbackRequest) → Keeps R (callback h env r)
  unfolding callback sign_in
  callback-Keeps r = Keeps-seq R (check_state-Keeps R (cookie_of r.cookies oauth_state) r.state) (
      Keeps-bind R (attempt-Keeps R (h.exchange r.code) _) (λ tok.
        Keeps-bind R (attempt-Keeps R (h.fetch_user_info tok) (http_error 500)) (λ info.
          Keeps-seq R (refuse_when-Keeps R (not (email_allowed h.allowed_domains info.email)) _)
            (start_session-Keeps info))))
