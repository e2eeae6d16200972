-- ===== src/Service/Rpc/Succeeds.antt =====
-- Calls of the store that succeed for a handler.
use metery.Prelude.{Option, none, some, ◌≡◌, refl, sym, ap}
use metery.Store.Db.{World, Result, ok, err, ok≢err, ok_inj, Action, StoreError, or_fail}
use metery.Service.Rpc.{RpcError, or_else}

module _ {A : Type 0} where
  -- A call of the store that succeeds for the handler succeeded.
  pub or_else_ok :
      (m : Action StoreError A) (f : StoreError → RpcError) (a : A) (w w' : World)
      → or_else m f w ≡ (ok a, w')
      → m w ≡ (ok a, w')
  or_else_ok m f a w w' e = through (m w) refl e
    where
      through :
          (s : Result StoreError A × World)
          → m w ≡ s
          → or_else (λ _. s) f w ≡ (ok a, w')
          → m w ≡ (ok a, w')
      through (ok b, v) same h =
          let answer : b ≡ a = ok_inj (ap (λ s. s.0) h) in
          let world : v ≡ w' = ap (λ s. s.1) h in rw (← answer, ← world) same
      through (err x, v) same h = absurd (ok≢err (sym (ap (λ s. s.0) h)))

  pub or_fail_ok :
      {E : Type 0} (o : Option A) (x : E) (a : A) (w w' : World)
      → or_fail o x w ≡ (ok a, w')
      → (o ≡ some a) × (w ≡ w')
  or_fail_ok none x a w w' e = absurd (ok≢err (sym (ap (λ s. s.0) e)))
  or_fail_ok (some b) x a w w' e = (ap some (ok_inj (ap (λ s. s.0) e)), ap (λ s. s.1) e)
