-- ===== src/Command/Server/Invariants.antt =====
-- What every reachable state of the server has in common.
use metery.Prelude.{ℕ}
use metery.Ledger.Deduct.{Sorter}
use metery.Store.Db.{Env, World}
use metery.Store.Valid.{IsValid, stays_valid}
use metery.Store.Valid.Writes.{stays_valid-Writes}
use metery.Store.Keys.{IsKeyed, stays_keyed}
use metery.Store.Keys.Writes.{stays_keyed-Writes}
use metery.Store.History.{IsHistory, history}
use metery.Store.History.Writes.{history-Writes}
use metery.Service.Rpc.{Codec}
use metery.Auth.OAuth.{OAuthHandler}
use metery.Web.Pages.{Display}
use metery.Command.{ServeConfig}
use metery.Command.Server.{Reach}
use metery.Command.Server.Kept.{Reach-rel}

module _ {M : Type 0} (codec : Codec M) (env : Env) (sorter : Sorter) (fuel : ℕ) (display : Display)
    (h : OAuthHandler) (config : ServeConfig) (w v : World)
    (reach : Reach sorter codec fuel display h config env w v) where
  -- For any settings, sign-in handler, codec, sorter and environment, from tables that keep the
  -- keys, unique indexes and checks, any sequence of requests to the server (any of the 32
  -- methods of the API with any message and header, pages of the console, the routes of the
  -- sign-in, /health and /worker/run) and rounds of the worker leads to such tables: a customer
  -- has at most one active entitlement for a feature and at most one active subscription to a
  -- plan, a subscription has at most one unvoided grant for an entitlement and an instant,
  -- amounts of grants are positive, meters have known aggregations, and ids, keys, slugs,
  -- Google accounts and the instants of an entitlement's snapshots are unique.
  pub Reach-IsValid : IsValid w.db → IsKeyed w.db → IsValid v.db × IsKeyed v.db
  Reach-IsValid valid keyed = (
    Reach-rel stays_valid stays_valid-Writes codec env sorter fuel display h config w v reach valid,
    Reach-rel stays_keyed stays_keyed-Writes codec env sorter fuel display h config w v reach keyed,
  )

  -- For any settings, sign-in handler, codec, sorter and environment, in any world, any
  -- sequence of requests to the server (any of the 32 methods of the API with any message and
  -- header, pages of the console, the routes of the sign-in, /health and /worker/run) and
  -- rounds of the worker removes no row of any table and leaves events and snapshots as they
  -- are; of a row that was there, only the name of a customer, the anchor of an entitlement's
  -- usage period, the plan of a subscription, the email and name of a user, and the ends
  -- change, and an end (of a customer, meter, feature, plan, entitlement, grant or
  -- subscription) stays as it is once it is set. In particular the amount, priority, effect and
  -- expiry of a grant never change.
  pub Reach-IsHistory : IsHistory w.db v.db
  Reach-IsHistory =
      Reach-rel history history-Writes codec env sorter fuel display h config w v reach
