-- ===== src/Command/Server/Kept.antt =====
-- A step of the server against a relation that the writes of the store keep.
use metery.Prelude.{ℕ, String, List, [], ◌∷◌, subst}
use metery.Ledger.Deduct.{Sorter}
use metery.Store.Db.{Env, World, Result, StoreError}
use metery.Store.Db.Keeps.{Relation, Keeps}
use metery.Store.Writes.{Writes}
use metery.Store.Writes.Single.{create_grant-Keeps}
use metery.Service.Rpc.{Codec}
use metery.Auth.OAuth.{OAuthHandler}
use metery.Auth.Kept.{auth_middleware-Keeps, callback-Keeps, login-Keeps}
use metery.Web.Pages.{Display, Page}
use metery.Web.Console.Guarded.{IsGuarded, stranger, welcome, serve-IsGuarded}
use metery.Worker.Kept.{process_recurrence-Keeps}
use metery.Worker.{process_recurrence}
use metery.Worker.Loop.{Signal, tick, done, run_recurrence_worker}
use metery.Command.{ServeConfig, handle, run_once}
use metery.Command.Api.Kept.{dispatch-Keeps}
use metery.Command.Server.{
  after_request, Step, Reach, called, browsed, returned, sent_to_google, logged_out, checked,
  triggered, worked, start, next,
}

-- A page of the console leaves the tables.
guarded :
    (R : Relation) (id : String) (w v : World) (r : Result StoreError Page)
    → IsGuarded id w v r
    → R.rel w.db v.db
guarded R id w v r (stranger same _ _) = subst (λ d. R.rel w.db d) same (R.rel_refl w.db)
guarded R id w v r (welcome _ _ same _ _ _ _) = subst (λ d. R.rel w.db d) same (R.rel_refl w.db)

module _ (R : Relation) (writes : Writes R) {M : Type 0} (codec : Codec M) (env : Env) where
  pass-Keeps : Keeps R (process_recurrence codec env)
  pass-Keeps = process_recurrence-Keeps R (λ g _ _. create_grant-Keeps R writes g) codec env

  run_recurrence_worker-rel :
      (signals : List Signal) (w : World)
      → R.rel w.db (run_recurrence_worker codec env signals w).db
  unfolding run_recurrence_worker
  run_recurrence_worker-rel [] w = R.rel_refl w.db
  run_recurrence_worker-rel (done ∷ signals) w = R.rel_refl w.db
  run_recurrence_worker-rel (tick ∷ signals) w =
      R.rel_trans _ _ _ (pass-Keeps.kept w)
        (run_recurrence_worker-rel signals (process_recurrence codec env w).1)

  module _ (sorter : Sorter) (fuel : ℕ) (display : Display) (h : OAuthHandler)
      (config : ServeConfig) where
    Step-rel : (w v : World) → Step sorter codec fuel display h config env w v → R.rel w.db v.db
    unfolding after_request handle run_once
    Step-rel w _ (called header c) =
        (auth_middleware-Keeps R config.api_keys header _
            (dispatch-Keeps R writes sorter codec fuel env c)).kept
          w
    Step-rel w _ (browsed cookies route) =
        guarded R _ w _ _ (serve-IsGuarded display env h.sign cookies route w)
    Step-rel w _ (returned r) = (callback-Keeps R writes env h r).kept w
    Step-rel w _ sent_to_google = (login-Keeps R h).kept w
    Step-rel w _ logged_out = R.rel_refl w.db
    Step-rel w _ checked = R.rel_refl w.db
    Step-rel w _ triggered = pass-Keeps.kept w
    Step-rel w _ (worked signals) = run_recurrence_worker-rel signals w

    -- For any settings, sign-in handler, codec, sorter and environment, for any reflexive and
    -- transitive relation between tables that holds over each of the store's 20 kinds of
    -- writing statement, any sequence of requests to the server (any of the 32 methods of the
    -- API with any message and header, pages of the console, the routes of the sign-in,
    -- /health and /worker/run) and rounds of the worker leads to tables that the relation
    -- holds to: the server and the worker change the tables through the store's statements
    -- alone.
    pub Reach-rel :
        (w v : World) → Reach sorter codec fuel display h config env w v → R.rel w.db v.db
    Reach-rel w _ start = R.rel_refl w.db
    Reach-rel w u (next v _ reach step) =
        R.rel_trans _ _ _ (Reach-rel w v reach) (Step-rel v u step)
