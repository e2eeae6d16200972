-- ===== src/Store/Subscriptions/Materialized.antt =====
-- What `CreateSubscriptionWithMaterialize` of internal/store/store.go leaves for the entries of a
-- plan.
use metery.Prelude.{
  eqb_ℤ, eqb_ℤ_refl, Bool, true, ◌&&◌, Option, none, some, String, List, [], ◌∷◌, ◌++◌, any, All,
  find?, ◌==◌, ==_refl, ◌≡◌, refl, sym, ap, subst, ◌∙◌,
}
use metery.Store.Rows.{
  EntitlementRow, GrantRow, SubscriptionRow, SubscriptionEntry, MaterializeGrant,
}
use metery.Store.Table.{is_none, is_value}
use metery.Store.Constraints.{same_entitlement, same_grant, same_subscription}
use metery.Store.Table.Update.{find?-any}
use metery.Store.Db.{
  try_modify_ok, transaction_ok, Db, Env, World, ok, ok_inj, bind_ok, ◌>>◌, pure, new_ulid,
  try_modify,
}
use metery.Store.Db.Inserts.{inserted}
use metery.Store.Entitlements.{add_entitlement, add_grant, is_active_for}
use metery.Store.Subscriptions.Grows.{
  Grows, grows, any-entitlements, any-grants, appended, any-last, create_entitlement-Grows,
  create_grant-Grows, add_grant_lem,
}
use metery.Store.Writes.Actions.{materialize_entries-Keeps, grant_for-Keeps}
use metery.Store.Subscriptions.{
  new_entitlement, new_grant, reuse_or_create, entitlement_for, grant_for, materialize_entries,
  insert_subscription, create_subscription_with_materialize,
}

module _ (env : Env) (s : SubscriptionRow) where
  abbrev is_entitlement : SubscriptionEntry → String → EntitlementRow → Bool
  is_entitlement e id r = is_active_for s.customer_id e.feature_id r && r.id == id

  -- The grant of an entry: of the subscription and the entitlement, with the entry's amount, from
  -- the subscription's start.
  abbrev is_granted : String → MaterializeGrant → GrantRow → Bool
  is_granted id g r =
      (r.entitlement_id == id && is_value r.subscription_id s.id)
      && (is_none r.voided_at && (eqb_ℤ r.amount g.amount && eqb_ℤ r.effective_at s.starts_at))

  abbrev HasGrant : Db → String → Option MaterializeGrant → Type 0
  HasGrant d id none = Unit {0}
  HasGrant d id (some g) = any (is_granted id g) d.grants ≡ true

  -- The customer has an active entitlement to the entry's feature, with the entry's grant.
  pub record IsMaterialized (d : Db) (e : SubscriptionEntry) : Type 0 where
    pub entitlement : String
    pub entitled : any (is_entitlement e entitlement) d.entitlements ≡ true
    pub granted : HasGrant d entitlement e.grant

  entitlement_for-entitled :
      (e : SubscriptionEntry) (id : String) (w w' : World)
      → entitlement_for env s e w ≡ (ok id, w')
      → any (is_entitlement e id) w'.db.entitlements ≡ true
  unfolding entitlement_for reuse_or_create
  entitlement_for-entitled e id w w' h =
      found (find? (is_active_for s.customer_id e.feature_id) w.db.entitlements) refl h
    where
      found :
          (o : Option EntitlementRow)
          → find? (is_active_for s.customer_id e.feature_id) w.db.entitlements ≡ o
          → reuse_or_create env s e o w ≡ (ok id, w')
          → any (is_entitlement e id) w'.db.entitlements ≡ true
      found (some row) f h =
          let same : row.id ≡ id = ok_inj (ap (λ t. t.0) h) in
          let there =
            find?-any (λ r. r.id) (is_active_for s.customer_id e.feature_id) w.db.entitlements row
              f in
          let t : w ≡ w' = ap (λ t. t.1) h in rw (← same, ← t) there
      found none f h =
          let (x, w1, a, b) =
            bind_ok (new_ulid env)
              (λ x. try_modify (add_entitlement (new_entitlement s e x)) >> pure x) id w w' h in
          let (y, w2, c, d) =
            bind_ok (try_modify (add_entitlement (new_entitlement s e x))) (λ _. pure x) id w1 w'
              b in
          let added = try_modify_ok (add_entitlement (new_entitlement s e x)) w1 w2 y c in
          let (after, r, put) =
            inserted same_entitlement (new_entitlement s e x) w1.db.entitlements
              (λ rows. record w1.db { entitlements = rows }) w2.db added in
          let same : x ≡ id = ok_inj (ap (λ t. t.0) d) in
          let t : w2 ≡ w' = ap (λ t. t.1) d in
          let last =
            any-last same_entitlement (new_entitlement s e x) w1.db.entitlements after r
              (is_entitlement e x)
              (rw (==_refl s.customer_id, ==_refl e.feature_id, ==_refl x) refl) in
          rw (← same, ← t, ← put) last

  grant_for-granted :
      (id : String) (g : Option MaterializeGrant) (w w' : World) (a : Unit {0})
      → grant_for env s id g w ≡ (ok a, w')
      → HasGrant w'.db id g
  unfolding grant_for
  grant_for-granted id none w w' a h = tt
  grant_for-granted id (some g) w w' a h =
      let (x, w1, b, c) =
        bind_ok (new_ulid env) (λ x. try_modify (add_grant (new_grant s id g x))) a w w' h in
      let (after, r, put) =
        add_grant_lem (new_grant s id g x) w1.db w'.db
          (try_modify_ok (add_grant (new_grant s id g x)) w1 w' a c) in
      let last =
        any-last same_grant (new_grant s id g x) w1.db.grants after r (is_granted id g)
          (rw (==_refl id, ==_refl s.id, eqb_ℤ_refl g.amount, eqb_ℤ_refl s.starts_at) refl) in
      rw (← put) last

  IsMaterialized-Grows :
      (e : SubscriptionEntry) (id : String) (d d' : Db)
      → any (is_entitlement e id) d.entitlements ≡ true
      → HasGrant d id e.grant
      → Grows d d'
      → IsMaterialized d' e
  IsMaterialized-Grows e id d d' h k g = record {
    entitlement = id;
    entitled = any-entitlements d d' g (is_entitlement e id) h;
    granted = still e.grant k;
  }
    where
      still : (o : Option MaterializeGrant) → HasGrant d id o → HasGrant d' id o
      still none k = tt
      still (some m) k = any-grants d d' g (is_granted id m) k

  pub materialize_entries-IsMaterialized :
      (entries : List SubscriptionEntry) (w w' : World) (a : Unit {0})
      → materialize_entries env s entries w ≡ (ok a, w')
      → All (IsMaterialized w'.db) entries
  unfolding materialize_entries
  materialize_entries-IsMaterialized [] w w' a h = tt
  materialize_entries-IsMaterialized (e ∷ es) w w' a h =
      let (id, w1, b, c) =
        bind_ok (entitlement_for env s e)
          (λ i. grant_for env s i e.grant >> materialize_entries env s es) a w w' h in
      let (u, w2, p, q) =
        bind_ok (grant_for env s id e.grant) (λ _. materialize_entries env s es) a w1 w' c in
      let ent = entitlement_for-entitled e id w w1 b in
      let k1 : Grows w1.db w2.db =
        subst (λ t. Grows w1.db t.1.db) p
          ((grant_for-Keeps grows create_entitlement-Grows create_grant-Grows env s id e.grant).kept
            w1) in
      let k2 : Grows w2.db w'.db =
        subst (λ t. Grows w2.db t.1.db) q
          ((materialize_entries-Keeps grows create_entitlement-Grows create_grant-Grows env s
              es).kept
            w2) in
      (
        IsMaterialized-Grows e id w2.db w'.db
            (any-entitlements w1.db w2.db k1 (is_entitlement e id) ent)
            (grant_for-granted id e.grant w1 w2 u p) k2,
        materialize_entries-IsMaterialized es w2 w' a q,
      )

  -- For any environment, subscription, entries and world, if
  -- `CreateSubscriptionWithMaterialize` succeeds, then after it the subscription stands behind
  -- the others, and for each entry the customer has an active entitlement to the entry's
  -- feature, to which, if the entry has a grant, there is an unvoided grant of the subscription
  -- with the entry's amount, effective from the subscription's start.
  pub create_subscription-IsMaterialized :
      (entries : List SubscriptionEntry) (w w' : World) (a : Unit {0})
      → create_subscription_with_materialize env s entries w ≡ (ok a, w')
      → (w'.db.subscriptions ≡ w.db.subscriptions ++ s ∷ []) × All (IsMaterialized w'.db) entries
  unfolding create_subscription_with_materialize insert_subscription
  create_subscription-IsMaterialized entries w w' a h =
      let done =
        transaction_ok (insert_subscription s >> materialize_entries env s entries) a w w' h in
      let (u, w1, b, c) =
        bind_ok (insert_subscription s) (λ _. materialize_entries env s entries) a w w' done in
      let (after, r, put) =
        inserted same_subscription s w.db.subscriptions
          (λ rows. record w.db { subscriptions = rows }) w1.db (try_modify_ok _ w w1 u b) in
      let k : Grows w1.db w'.db =
        subst (λ t. Grows w1.db t.1.db) c
          ((materialize_entries-Keeps grows create_entitlement-Grows create_grant-Grows env s
              entries).kept
            w1) in
      (
        k.subscriptions
            ∙ ap (λ d. d.subscriptions) (sym put)
            ∙ appended same_subscription s w.db.subscriptions after r,
        materialize_entries-IsMaterialized entries w1 w' a c,
      )
