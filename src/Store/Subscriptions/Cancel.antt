-- ===== src/Store/Subscriptions/Cancel.antt =====
-- Cancelling a subscription.
use metery.Prelude.{Bool, true, false, not, ◌&&◌, some, String, any, filter, ◌==◌, ◌≡◌, refl, arith}
use metery.Time.{Time}
use metery.Store.Rows.{SubscriptionRow, GrantRow}
use metery.Store.Table.{is_none, is_value}
use metery.Store.Table.Update.{any-update_where, update_where-nothing, filter-update_where}
use metery.Store.Db.{modify, transaction, World, ok}
use metery.Store.Subscriptions.{cancel_row, cancel_subscription}

-- A subscription by its id that is not cancelled, and a grant of it that is not voided.
abbrev pub is_running : String → SubscriptionRow → Bool
is_running id s = s.id == id && is_none s.canceled_at

abbrev pub is_live_grant_of : String → GrantRow → Bool
is_live_grant_of id g = is_value g.subscription_id id && is_none g.voided_at

and_false : (a : Bool) → (a && false) ≡ false
and_false a = ground arith

not_left : (a b : Bool) → (a && b) ≡ true → not a ≡ false
not_left a b h = ground arith

module _ (id : String) where
  cancel_ends : (at : Time) (s : SubscriptionRow) → is_running id (cancel_row at s) ≡ false
  cancel_ends at s = and_false (s.id == id)

  void_ends :
      (at : Time) (g : GrantRow) → is_live_grant_of id (record g { voided_at = some at }) ≡ false
  void_ends at g = and_false (is_value g.subscription_id id)

  -- For any id, instant (one in the future included) and world, `CancelSubscription` succeeds;
  -- directly after it no subscription with the id is active and no grant of it is unvoided, the
  -- rows of other subscriptions and the grants that are not of this one are as they were, in
  -- order, and the entitlements are unchanged.
  pub cancel_subscription-voids :
      (at : Time) (w : World)
      → let (r, w') = cancel_subscription id at w in
        (r ≡ ok tt)
        × (any (is_running id) w'.db.subscriptions ≡ false)
        × (any (is_live_grant_of id) w'.db.grants ≡ false)
        × (filter (λ s. not (s.id == id)) w'.db.subscriptions
            ≡ filter (λ s. not (s.id == id)) w.db.subscriptions)
        × (filter (λ g. not (is_value g.subscription_id id)) w'.db.grants
            ≡ filter (λ g. not (is_value g.subscription_id id)) w.db.grants)
        × (w'.db.entitlements ≡ w.db.entitlements)
  unfolding cancel_subscription transaction modify
  cancel_subscription-voids at w = (
    refl,
    any-update_where (is_running id) (cancel_row at) (cancel_ends at) w.db.subscriptions,
    any-update_where (is_live_grant_of id) (λ g. record g { voided_at = some at }) (void_ends at)
        w.db.grants,
    filter-update_where (is_running id) (cancel_row at) (λ s. not (s.id == id))
        (λ s. not_left (s.id == id) (is_none s.canceled_at))
        (λ s. not_left (s.id == id) (is_none s.canceled_at)) w.db.subscriptions,
    filter-update_where (is_live_grant_of id) (λ g. record g { voided_at = some at })
        (λ g. not (is_value g.subscription_id id))
        (λ g. not_left (is_value g.subscription_id id) (is_none g.voided_at))
        (λ g. not_left (is_value g.subscription_id id) (is_none g.voided_at)) w.db.grants,
    refl,
  )

  -- For any id, world and two instants, a second `CancelSubscription` of the id succeeds and
  -- changes nothing: the time of the first stays.
  pub cancel_subscription-twice :
      (at later : Time) (w : World)
      → let w' = (cancel_subscription id at w).1 in cancel_subscription id later w' ≡ (ok tt, w')
  unfolding cancel_subscription transaction modify
  cancel_subscription-twice at later w =
      rw
        (
          update_where-nothing (is_running id) (cancel_row later) _ (
              any-update_where (is_running id) (cancel_row at) (cancel_ends at) w.db.subscriptions),
          update_where-nothing (is_live_grant_of id) (λ g. record g { voided_at = some later }) _
              (any-update_where (is_live_grant_of id) (λ g. record g { voided_at = some at })
                (void_ends at) w.db.grants),
        )
        refl
