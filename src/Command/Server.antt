-- ===== src/Command/Server.antt =====
-- The server that cmd/metery/main.go starts with `serve`, and the worker that it starts with
-- `worker`, over one database: what may happen next.
pub mod Kept
pub mod Invariants
pub mod Usage
mod Tests
use metery.Prelude.{ℕ, String, List}
use metery.Ledger.Deduct.{Sorter}
use metery.Store.Db.{Env, World}
use metery.Service.Rpc.{Codec}
use metery.Auth.OAuth.{OAuthHandler, CallbackRequest}
use metery.Web.Pages.{Display}
use metery.Web.Console.{Route}
use metery.Worker.Loop.{Signal, run_recurrence_worker}
use metery.Command.{
  ServeConfig, Request, rpc, console, google_callback, google_login, auth_logout, health,
  worker_run, handle,
}
use metery.Command.Api.{Call, Answer, dispatch}

module _ (sorter : Sorter) {M : Type 0} (codec : Codec M) (fuel : ℕ) (display : Display)
    (h : OAuthHandler) (config : ServeConfig) (env : Env) where
  -- The tables and counters that a request leaves.
  unfoldable pub after_request : Request (Answer M) → World → World
  after_request r w = (handle codec display h config env r w).1

  -- A request of one of the server's routes that has been served, or some rounds of the worker's
  -- loop. A call of the API is one of a method that is registered.
  pub data Step (w : World) : World → Type 0 where
    called :
        (auth_header : String) (c : Call M)
        → Step w (after_request (rpc auth_header (dispatch sorter codec fuel env c)) w)
    browsed :
        (cookies : List (String × String)) (route : Route)
        → Step w (after_request (console cookies route) w)
    returned : (r : CallbackRequest) → Step w (after_request (google_callback r) w)
    sent_to_google : Step w (after_request google_login w)
    logged_out : Step w (after_request auth_logout w)
    checked : Step w (after_request health w)
    triggered : Step w (after_request worker_run w)
    worked : (signals : List Signal) → Step w (run_recurrence_worker codec env signals w)

  -- What the steps lead to, one after the other.
  pub data Reach (w : World) : World → Type 0 where
    start : Reach w w
    next : (v u : World) → Reach w v → Step v u → Reach w u
