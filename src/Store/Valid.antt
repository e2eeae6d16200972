-- ===== src/Store/Valid.antt =====
-- The unique indexes of internal/store/migrations/ over every write of internal/store/store.go on
-- entitlements, grants and subscriptions.
pub mod Conflicts
pub mod Writes
pub mod Atomic
use metery.Prelude.{pos, ltb_ℤ, All, true, String, List, [], ◌∷◌, ◌≡◌}
use metery.Time.{Time}
use metery.Store.Rows.{EntitlementRow, GrantRow, SubscriptionRow, SubscriptionEntry}
use metery.Store.Table.{is_unique}
use metery.Store.Constraints.{same_entitlement, same_grant, same_subscription}
use metery.Store.Db.{Db, Env, World, StoreError, Action}
use metery.Store.Db.Keeps.{Relation, Keeps}
use metery.Store.Entitlements.{
  create_entitlement, create_grant, delete_entitlement, reset_entitlement, void_grant,
}
use metery.Store.Subscriptions.{
  create_subscription_with_materialize, cancel_subscription, change_subscription,
}

-- No two rows conflict: at most one active entitlement for a customer and a feature, one unvoided
-- emission for a subscription, an entitlement and an instant, and one active subscription for a
-- customer and a plan; ids are unique; and the amounts of grants are positive.
pub record IsValid (db : Db) : Type 0 where
  pub entitlements : is_unique same_entitlement db.entitlements ≡ true
  pub grants : is_unique same_grant db.grants ≡ true
  pub subscriptions : is_unique same_subscription db.subscriptions ≡ true
  pub amounts : All (λ g. ltb_ℤ (pos 0) g.amount ≡ true) db.grants

abbrev pub stays_valid : Relation
stays_valid = record {
  rel = λ d e. IsValid d → IsValid e;
  rel_refl = λ d h. h;
  rel_trans = λ d e f g h v. h (g v);
}

-- A call of a write of the store.
pub data Write : Type 0 where
  create_entitlement_call : EntitlementRow → Write
  create_grant_call : GrantRow → Write
  delete_entitlement_call : String → String → Write
  reset_entitlement_call : String → Time → Write
  void_grant_call : String → Write
  create_subscription_call : SubscriptionRow → List SubscriptionEntry → Write
  cancel_subscription_call : String → Time → Write
  change_subscription_call : SubscriptionRow → String → Time → List SubscriptionEntry → Write

unfoldable pub perform : Env → Write → Action StoreError (Unit {0})
perform env (create_entitlement_call e) = create_entitlement e
perform env (create_grant_call g) = create_grant g
perform env (delete_entitlement_call c f) = delete_entitlement env c f
perform env (reset_entitlement_call id at) = reset_entitlement id at
perform env (void_grant_call id) = void_grant env id
perform env (create_subscription_call s entries) =
    create_subscription_with_materialize env s entries
perform env (cancel_subscription_call id at) = cancel_subscription id at
perform env (change_subscription_call s plan at entries) = change_subscription env s plan at entries
