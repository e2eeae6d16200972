-- ===== src/Store/Subscriptions/Changed.antt =====
-- What `ChangeSubscription` of internal/store/store.go leaves.
use metery.Prelude.{
  if◌then◌else◌, Option, none, some, String, List, ◌++◌, All, ◌==◌, ◌≡◌, sym, ap, subst, ◌∙◌,
  Bool-cases, inl, inr, none≢some, some_inj,
}
use metery.Time.{Time}
use metery.Store.Rows.{GrantRow, SubscriptionRow, SubscriptionEntry}
use metery.Store.Table.{update_where, is_unique}
use metery.Store.Constraints.{same_subscription}
use metery.Store.Db.{try_modify_ok, transaction_ok, Db, Env, World, ok, bind_ok, ◌>>◌, modify}
use metery.Store.Subscriptions.Grows.{Grows, grows, create_entitlement-Grows, create_grant-Grows}
use metery.Store.Subscriptions.Materialized.{IsMaterialized, materialize_entries-IsMaterialized}
use metery.Store.Writes.Actions.{materialize_entries-Keeps}
use metery.Store.Subscriptions.{materialize_entries, void_grants_of, set_plan, change_subscription}

-- The rows after an update of the plan that the unique index took.
set_plan_lem :
    (id plan : String) (w w' : World) (a : Unit {0})
    → set_plan id plan w ≡ (ok a, w')
    → record w.db {
      subscriptions =
          update_where (λ r. r.id == id) (λ r. record r { plan_id = plan }) w.db.subscriptions;
    }
      ≡ w'.db
unfolding set_plan
set_plan_lem id plan w w' a e =
    let rows =
      update_where (λ r. r.id == id) (λ r. record r { plan_id = plan }) w.db.subscriptions in
    let put : Db → Option Db = λ db.
      let rows =
        update_where (λ s. s.id == id) (λ s. record s { plan_id = plan }) db.subscriptions in
      if is_unique same_subscription rows
      then some (record db { subscriptions = rows })
      else none in
    let done : put w.db ≡ some w'.db = try_modify_ok put w w' a e in
    elim (Bool-cases (is_unique same_subscription rows)) [
      | inr clash ↦ absurd (none≢some (rw clash at done))
      | inl apart ↦ some_inj (rw apart at done)
    ]

module _ (env : Env) (s : SubscriptionRow) (plan : String) (at : Time) where
  abbrev changed : SubscriptionRow
  changed = record s { plan_id = plan; starts_at = at }

  abbrev void : Db → Db
  void d = record d { grants = void_grants_of s.id at d.grants }

  -- For any environment, subscription, plan, instant, entries and world, if
  -- `ChangeSubscription` succeeds, then after it the grants are those from before, with the
  -- subscription's unvoided ones voided at the instant, and new ones behind them; the
  -- subscriptions are those from before, with the new plan in the one; and for each entry the
  -- customer has an active entitlement to the entry's feature, to which, if the entry has a
  -- grant, there is an unvoided grant of the subscription with the entry's amount, effective
  -- from the instant.
  pub change_subscription-IsMaterialized :
      (entries : List SubscriptionEntry) (w w' : World) (a : Unit {0})
      → change_subscription env s plan at entries w ≡ (ok a, w')
      → (new : List GrantRow) × (w'.db.grants ≡ void_grants_of s.id at w.db.grants ++ new)
        × (w'.db.subscriptions
            ≡ update_where
                (λ r. r.id == s.id)
                (λ r. record r { plan_id = plan })
                w.db.subscriptions)
        × All (IsMaterialized env (record s { plan_id = plan; starts_at = at }) w'.db) entries
  unfolding change_subscription modify
  change_subscription-IsMaterialized entries w w' a h =
      let rest = materialize_entries env changed entries in
      let done = transaction_ok (modify void >> (set_plan s.id plan >> rest)) a w w' h in
      let (u, w1, b, c) = bind_ok (modify void) (λ _. set_plan s.id plan >> rest) a w w' done in
      let (v, w2, p, q) = bind_ok (set_plan s.id plan) (λ _. rest) a w1 w' c in
      let first : void w.db ≡ w1.db = ap (λ t. t.1.db) b in
      let second = set_plan_lem s.id plan w1 w2 v p in
      let k : Grows w2.db w'.db =
        subst (λ t. Grows w2.db t.1.db) q
          ((materialize_entries-Keeps grows create_entitlement-Grows create_grant-Grows env changed
              entries).kept
            w2) in
      (
        k.new_grants,
        k.grants
            ∙ ap (λ d. d.grants ++ k.new_grants) (sym second)
            ∙ ap (λ d. d.grants ++ k.new_grants) (sym first),
        k.subscriptions
            ∙ ap (λ d. d.subscriptions) (sym second)
            ∙ ap
                (λ d.
                  update_where (λ r. r.id == s.id) (λ r. record r { plan_id = plan })
                    d.subscriptions)
                (sym first),
        materialize_entries-IsMaterialized env changed entries w2 w' a q,
      )
