-- ===== src/Service/Rpc/Keeps.antt =====
-- Relations between tables, carried through calls of the store.
use metery.Store.Db.{
  World, Result, ok, err, StoreError, no_rows, constraint, corrupt, no_value_property,
  unsupported_aggregation, Action,
}
use metery.Store.Db.Keeps.{Relation, Keeps}
use metery.Service.Rpc.{RpcError, or_else, or_nil, or_absent}

module _ (R : Relation) {A : Type 0} {m : Action StoreError A} where
  pub Keeps-or_nil : {E : Type 0} → Keeps R m → Keeps R {E = E} (or_nil m)
  Keeps-or_nil {E} k = record { kept = λ w. through w (m w) (k.kept w) }
    where
      through :
          (w : World) (s : Result StoreError A × World)
          → R.rel w.db s.1.db
          → R.rel w.db ((or_nil {E = E} (λ _. s)) w).1.db
      through w (ok a, w') h = h
      through w (err e, w') h = h

  pub Keeps-or_else : (f : StoreError → RpcError) → Keeps R m → Keeps R (or_else m f)
  Keeps-or_else f k = record { kept = λ w. through w (m w) (k.kept w) }
    where
      through :
          (w : World) (s : Result StoreError A × World)
          → R.rel w.db s.1.db
          → R.rel w.db ((or_else (λ _. s) f) w).1.db
      through w (ok a, w') h = h
      through w (err e, w') h = h

  pub Keeps-or_absent : Keeps R m → Keeps R (or_absent m)
  Keeps-or_absent k = record { kept = λ w. through w (m w) (k.kept w) }
    where
      through :
          (w : World) (s : Result StoreError A × World)
          → R.rel w.db s.1.db
          → R.rel w.db ((or_absent (λ _. s)) w).1.db
      through w (ok a, w') h = h
      through w (err no_rows, w') h = h
      through w (err constraint, w') h = h
      through w (err corrupt, w') h = h
      through w (err no_value_property, w') h = h
      through w (err unsupported_aggregation, w') h = h
