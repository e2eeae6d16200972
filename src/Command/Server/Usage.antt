-- ===== src/Command/Server/Usage.antt =====
-- What the server's steps leave of the usage of a meter.
use metery.Prelude.{
  ℕ, ◌≤◌, pos, Bool, true, String, List, [], ◌∷◌, filter, length, ◌==◌, ◌≡◌, refl, subst, arith,
  Bool-cases, inl, inr,
}
use metery.Time.{Time}
use metery.Ledger.Deduct.{Sorter}
use metery.Store.Rows.{Event, Meter}
use metery.Store.Db.{Env, World, ok}
use metery.Store.Usage.{in_window, fetch_usage}
use metery.Store.History.{event_table}
use metery.Store.History.Extended.{Extends, added, stays}
use metery.Service.Rpc.{Codec}
use metery.Auth.OAuth.{OAuthHandler}
use metery.Web.Pages.{Display}
use metery.Command.{ServeConfig}
use metery.Command.Server.{Reach}
use metery.Command.Server.Invariants.{Reach-IsHistory}

length-Extends :
    (p : Event → Bool) (xs ys : List Event)
    → Extends ◌≡◌ xs ys
    → length (filter p xs) ≤ length (filter p ys)
length-Extends p [] _ (added ys) = omega arith
length-Extends p _ _ (stays x y xs ys same rest) =
    let tail = length-Extends p xs ys rest in
    subst (λ z. length (filter p (x ∷ xs)) ≤ length (filter p (z ∷ ys))) same
      (elim (Bool-cases (p x)) [ inl e ↦ rw e (omega (arith, tail)) | inr e ↦ rw e tail ])

module _ {M : Type 0} (codec : Codec M) (env : Env) (sorter : Sorter) (fuel : ℕ) (display : Display)
    (h : OAuthHandler) (config : ServeConfig) (w v : World)
    (reach : Reach sorter codec fuel display h config env w v) where
  -- For any settings, sign-in handler, codec, sorter and environment, and for a meter whose
  -- aggregation is count, any key and window, `FetchUsage` succeeds before and after any
  -- sequence of requests to the server (any of the 32 methods of the API with any message and
  -- header, pages of the console, the routes of the sign-in, /health and /worker/run) and
  -- rounds of the worker, and the usage after is no less than the usage before: an event that
  -- has been counted stays counted.
  pub Reach-fetch_usage :
      (key : String) (m : Meter) (from to : Time)
      → (m.aggregation == "count") ≡ true
      → (n k : ℕ) × (fetch_usage env key m from to w ≡ (ok (pos n), w))
        × (fetch_usage env key m from to v ≡ (ok (pos k), v))
        × (n ≤ k)
  unfolding fetch_usage
  Reach-fetch_usage key m from to counts =
      let p = in_window key m.event_type from to in
      (
        length (filter p w.db.events),
        length (filter p v.db.events),
        rw counts refl,
        rw counts refl,
        length-Extends p w.db.events v.db.events (
            (Reach-IsHistory codec env sorter fuel display h config w v reach).extends event_table),
      )
