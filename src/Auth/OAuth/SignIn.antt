-- ===== src/Auth/OAuth/SignIn.antt =====
-- Who gets a session from the callback.
use metery.Prelude.{
  true, some, String, List, [], ◌∷◌, ◌==◌, eq_iff, ◌≡◌, ◌≢◌, refl, sym, ap, subst, ◌∙◌, arith,
  Bool-cases, Option-cases, inl, inr, ◌⊎◌,
}
use metery.Store.Rows.{User}
use metery.Store.Db.{
  ok≢err, ok_inj, Env, World, Result, ok, err, constraint, StoreError, ◌>>=◌, pure,
}
use metery.Store.Plans.{upsert_user}
use metery.Store.Plans.Upsert.{IsUserOf, upsert_user_lem}
use metery.Auth.Session.{session_set, cookie_of}
use metery.Auth.OAuth.{
  GoogleUserInfo, HttpError, Redirect, CallbackRequest, OAuthHandler, oauth_state, email_allowed,
  sign_in, check_state, callback, start_session, upserted,
}

-- What stands behind a redirect with a session: the state came back that the cookie keeps, Google
-- named a user with a permitted email, and the session is of the user stored for that account.
pub record IsSignIn (h : OAuthHandler) (r : CallbackRequest) (answer : Redirect) (users : List User)
    : Type 0 where
  pub state_full : r.state ≢ ""
  pub state_kept : cookie_of r.cookies oauth_state ≡ some r.state
  pub token : String
  pub exchanged : h.exchange r.code ≡ ok token
  pub info : GoogleUserInfo
  pub fetched : h.fetch_user_info token ≡ ok info
  pub allowed : email_allowed h.allowed_domains info.email ≡ true
  pub user : User
  pub stored : IsUserOf info.id info.email info.name users user
  pub answered : answer ≡ record { cookies = session_set h.sign user.id ∷ []; target = "/" }

-- An answer with a session is a sign-in, and a refusal leaves the tables.
abbrev pub Outcome :
    OAuthHandler → CallbackRequest → World → Result HttpError Redirect × World → Type 0
Outcome h r w (ok answer, w') = IsSignIn h r answer w'.db.users
Outcome h r w (err e, w') = w'.db ≡ w.db

Result-cases : {E A : Type 0} (r : Result E A) → ((a : A) × (r ≡ ok a)) ⊎ ((e : E) × (r ≡ err e))
Result-cases (ok a) = inl (a, refl)
Result-cases (err e) = inr (e, refl)

module _ (h : OAuthHandler) (env : Env) (r : CallbackRequest) (w : World) where
  start_session-Outcome :
      r.state ≢ ""
      → cookie_of r.cookies oauth_state ≡ some r.state
      → (token : String) → h.exchange r.code ≡ ok token
      → (info : GoogleUserInfo) → h.fetch_user_info token ≡ ok info
      → email_allowed h.allowed_domains info.email ≡ true
      → Outcome h r w (start_session h env info w)
  unfolding start_session
  start_session-Outcome full kept token x info f allowed =
      through (upsert_user env info.id info.email info.name w)
        (upsert_user_lem env info.id info.email info.name w)
    where
      through :
          (s : Result StoreError User × World)
          → ((s.0 ≡ err constraint) × (s.1.db ≡ w.db))
            ⊎ ((u : User) × (s.0 ≡ ok u) × IsUserOf info.id info.email info.name s.1.db.users u)
          → Outcome h r w (
              (upserted (λ _. s) >>= (λ user.
                  pure (record { cookies = session_set h.sign user.id ∷ []; target = "/" })))
                w)
      through (err e, w') (inl (e_same, same)) = same
      through (err e, w') (inr (u, stored, i)) = absurd (ok≢err (sym stored))
      through (ok u, w') (inl (failed, same)) = absurd (ok≢err failed)
      through (ok u, w') (inr (v, stored, i)) = record {
        state_full = full;
        state_kept = kept;
        token = token;
        exchanged = x;
        info = info;
        fetched = f;
        allowed = allowed;
        user = u;
        stored = subst (IsUserOf info.id info.email info.name w'.db.users) (sym (ok_inj stored)) i;
        answered = refl;
      }

  sign_in-Outcome :
      r.state ≢ ""
      → cookie_of r.cookies oauth_state ≡ some r.state
      → Outcome h r w (sign_in h env r.code w)
  unfolding sign_in
  sign_in-Outcome full kept = elim (Result-cases (h.exchange r.code)) [
    | inr (e, x) ↦ rw (x, sign_in) refl
    | inl (token, x) ↦ elim (Result-cases (h.fetch_user_info token)) [
      | inr (e, f) ↦ rw (x, sign_in, f) refl
      | inl (info, f) ↦ elim (Bool-cases (email_allowed h.allowed_domains info.email)) [
        | inr refused ↦ rw (x, sign_in, f, refused) refl
        | inl allowed ↦
            rw (x, sign_in, f, allowed) (start_session-Outcome full kept token x info f allowed)
      ]
    ]
  ]

  -- For any handler, environment, callback request and world, if `Callback` answers with a
  -- redirect, then the request's state is not empty and is the one that the cookie keeps,
  -- Google exchanged the code and named an account with a permitted email, the table of users
  -- has a user with the account's id, email and name, and the redirect sets that user's
  -- session; if it answers with an error, the tables are as they were.
  pub callback-Outcome : Outcome h r w (callback h env r w)
  unfolding callback check_state
  callback-Outcome = elim (Option-cases (cookie_of r.cookies oauth_state)) [
    | inl n ↦ rw (n, callback) refl
    | inr (want, kept) ↦ elim (Bool-cases (want == "")) [
      | inl empty ↦ rw (kept, callback, empty) refl
      | inr full ↦ elim (Bool-cases (r.state == want)) [
        | inr other ↦ rw (kept, callback, full, other) refl
        | inl same ↦
            let e : r.state ≡ want = (eq_iff r.state want).0 same in
            let named : r.state ≢ "" = λ z. ground (arith, eq_iff want "", e, z, full) in
            rw (kept, callback, full, same)
              (sign_in-Outcome named (kept ∙ ap (λ v. some v) (sym e)))
      ]
    ]
  ]
