-- ===== src/Store/Valid/Atomic.antt =====
-- A write of the store that fails.
use metery.Prelude.{Option, ◌≡◌, refl, Option-cases, inl, inr}
use metery.Store.Db.{
  ok≢err, Db, Env, World, Result, ok, err, StoreError, Action, transaction, try_modify, modify,
  now_second,
}
use metery.Store.Entitlements.{
  create_entitlement, create_grant, delete_entitlement, reset_entitlement, void_grant,
}
use metery.Store.Subscriptions.{
  create_subscription_with_materialize, cancel_subscription, change_subscription,
}
use metery.Store.Valid.{Write, perform}

-- An action that leaves the tables as they are when it fails.
abbrev IsAtomic : Action StoreError (Unit {0}) → Type 0
IsAtomic m = (w : World) (e : StoreError) → (m w).0 ≡ err e → (m w).1.db ≡ w.db

transaction-IsAtomic : (m : Action StoreError (Unit {0})) → IsAtomic (transaction m)
unfolding transaction
transaction-IsAtomic m w e h = through (m w) h
  where
    through :
        (s : Result StoreError (Unit {0}) × World)
        → (transaction (λ _. s) w).0 ≡ err e
        → (transaction (λ _. s) w).1.db ≡ w.db
    through (ok a, w') h = absurd (ok≢err h)
    through (err e', w') h = refl

try_modify-IsAtomic : (f : Db → Option Db) → IsAtomic (try_modify f)
unfolding try_modify
try_modify-IsAtomic f w e h = elim (Option-cases (f w.db)) [
  | inl n ↦ rw (n, try_modify) refl
  | inr (d, s) ↦ absurd (ok≢err (rw (s, try_modify) at h))
]

-- For any world, if one of `CreateEntitlement`, `CreateGrant`, `DeleteEntitlement`,
-- `ResetEntitlement`, `VoidGrant`, `CreateSubscriptionWithMaterialize`, `CancelSubscription` and
-- `ChangeSubscription` fails, all tables are as they were, however many statements ran before the
-- failure.
pub perform-atomic :
    (env : Env) (c : Write) (w : World) (e : StoreError)
    → (perform env c w).0 ≡ err e
    → (perform env c w).1.db ≡ w.db
unfolding perform create_entitlement create_grant delete_entitlement reset_entitlement void_grant
    create_subscription_with_materialize cancel_subscription change_subscription now_second modify
perform-atomic env (Write.create_entitlement_call r) w e h = try_modify-IsAtomic _ w e h
perform-atomic env (Write.create_grant_call g) w e h = try_modify-IsAtomic _ w e h
perform-atomic env (Write.delete_entitlement_call c f) w e h = absurd (ok≢err h)
perform-atomic env (Write.reset_entitlement_call id at) w e h = absurd (ok≢err h)
perform-atomic env (Write.void_grant_call id) w e h = absurd (ok≢err h)
perform-atomic env (Write.create_subscription_call s entries) w e h = transaction-IsAtomic _ w e h
perform-atomic env (Write.cancel_subscription_call id at) w e h = transaction-IsAtomic _ w e h
perform-atomic env (Write.change_subscription_call s plan at entries) w e h =
    transaction-IsAtomic _ w e h
