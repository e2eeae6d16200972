-- ===== src/Worker/Kept.antt =====
-- The pass of internal/worker/recurrence.go against the writes of the store.
use metery.Prelude.{
  false, Option, none, some, String, List, [], ◌∷◌, ◌≡◌, refl, Bool-cases, Option-cases, inl, inr,
}
use metery.Time.{Time, after}
use metery.Duration.{Duration}
use metery.Store.Rows.{GrantRow, SubscriptionRow, Feature}
use metery.Store.Db.{Env}
use metery.Store.Reads.{
  get_feature-Unchanged, get_latest_subscription_grant-Unchanged,
  list_recurring_subscriptions-Unchanged,
}
use metery.Store.Db.Keeps.{
  Keeps-read, Relation, Keeps, Keeps-pure, Keeps-bind, Keeps-new_ulid, Keeps-now_second,
}
use metery.Store.Entitlements.{create_grant}
use metery.Store.Subscriptions.{RecurringSubscription}
use metery.Service.Rpc.Keeps.{Keeps-or_nil}
use metery.Service.Rpc.{GrantTemplate, PlanEntry, Codec, shift_time, plan_entries_from_json}
use metery.Worker.{
  Tally, base_of, child_of, emit_child, emit_if_due, emit_due, process_feature, process_grant,
  process_entry, process_entries, process_decoded, process_interval, process_subscription,
  process_subscriptions, process_recurrence, entitlement_by_feature,
}

-- A relation that holds over the insert of a grant that is not voided, and not effective after it
-- was created.
module _ (R : Relation)
    (writes : (g : GrantRow)
      → after g.effective_at g.created_at ≡ false
      → g.voided_at ≡ none
      → Keeps R (create_grant g)) where
  module _ {M : Type 0} (codec : Codec M) (env : Env) (now : Time) where
    emit_child-Keeps :
        (s : SubscriptionRow) (ent_id : String) (g : GrantTemplate) (next : Time) (c : Tally)
        → after next now ≡ false
        → Keeps R (emit_child codec env now s ent_id g next c)
    unfolding emit_child child_of
    emit_child-Keeps s ent_id g next c due = Keeps-bind R (Keeps-new_ulid R env) (λ id.
        Keeps-bind R (Keeps-or_nil R (writes (child_of codec env now s ent_id g next id) due refl))
          (λ created. Keeps-pure R _))

    emit_if_due-Keeps :
        (s : SubscriptionRow) (ent_id : String) (g : GrantTemplate) (c : Tally) (next : Time)
        → Keeps R (emit_if_due codec env now s ent_id g c next)
    unfolding emit_if_due
    emit_if_due-Keeps s ent_id g c next = elim (Bool-cases (after next now)) [
      | inl later ↦ rw later (Keeps-pure R c)
      | inr due ↦ rw due (emit_child-Keeps s ent_id g next c due)
    ]

    emit_due-Keeps :
        (dur : Duration) (s : SubscriptionRow) (g : GrantTemplate) (c : Tally) (ent : Option String)
        → Keeps R (emit_due codec env now dur s g c ent)
    unfolding emit_due
    emit_due-Keeps dur s g c none = Keeps-pure R c
    emit_due-Keeps dur s g c (some ent_id) =
        Keeps-bind R
          (Keeps-or_nil R (Keeps-read R (get_latest_subscription_grant-Unchanged s.id ent_id)))
          (λ last. emit_if_due-Keeps s ent_id g c (shift_time (base_of s last) dur))

    process_feature-Keeps :
        (dur : Duration) (rs : RecurringSubscription) (g : GrantTemplate) (c : Tally)
        (found : Option Feature)
        → Keeps R (process_feature codec env now dur rs g c found)
    unfolding process_feature
    process_feature-Keeps dur rs g c none = Keeps-pure R _
    process_feature-Keeps dur rs g c (some feat) =
        emit_due-Keeps dur rs.subscription g c
          (entitlement_by_feature rs.entitlement_by_feature feat.id)

    process_grant-Keeps :
        (dur : Duration) (rs : RecurringSubscription) (slug : String) (c : Tally)
        (g : Option GrantTemplate)
        → Keeps R (process_grant codec env now dur rs slug c g)
    unfolding process_grant
    process_grant-Keeps dur rs slug c none = Keeps-pure R c
    process_grant-Keeps dur rs slug c (some g) =
        Keeps-bind R (Keeps-or_nil R (Keeps-read R (get_feature-Unchanged slug)))
          (process_feature-Keeps dur rs g c)

    process_entries-Keeps :
        (dur : Duration) (rs : RecurringSubscription) (entries : List PlanEntry) (c : Tally)
        → Keeps R (process_entries codec env now dur rs entries c)
    unfolding process_entries process_entry
    process_entries-Keeps dur rs [] c = Keeps-pure R c
    process_entries-Keeps dur rs (pe ∷ pes) c =
        Keeps-bind R (process_grant-Keeps dur rs pe.feature_slug c pe.grant)
          (process_entries-Keeps dur rs pes)

    process_interval-Keeps :
        (rs : RecurringSubscription) (c : Tally) (dur : Option Duration)
        → Keeps R (process_interval codec env now rs c dur)
    unfolding process_interval process_decoded
    process_interval-Keeps rs c none = Keeps-pure R _
    process_interval-Keeps rs c (some dur) = decoded (plan_entries_from_json codec rs.plan.entries)
      where
        decoded :
            (entries : Option (List PlanEntry))
            → Keeps R (process_decoded codec env now dur rs c entries)
        decoded none = Keeps-pure R _
        decoded (some entries) = process_entries-Keeps dur rs entries c

    process_subscription-Keeps :
        (rs : RecurringSubscription) (c : Tally) → Keeps R (process_subscription codec env now rs c)
    unfolding process_subscription
    process_subscription-Keeps rs c = elim (Option-cases rs.plan.recurrence_interval) [
      | inl n ↦ rw (n, process_subscription) (Keeps-pure R c)
      | inr (interval, i) ↦
          rw (i, process_subscription) (process_interval-Keeps rs c (codec.parse_duration interval))
    ]

    process_subscriptions-Keeps :
        (subs : List RecurringSubscription) (c : Tally)
        → Keeps R (process_subscriptions codec env now subs c)
    unfolding process_subscriptions
    process_subscriptions-Keeps [] c = Keeps-pure R c
    process_subscriptions-Keeps (rs ∷ rest) c =
        Keeps-bind R (process_subscription-Keeps rs c) (process_subscriptions-Keeps rest)

  pub process_recurrence-Keeps :
      {M : Type 0} (codec : Codec M) (env : Env) → Keeps R (process_recurrence codec env)
  unfolding process_recurrence
  process_recurrence-Keeps codec env =
      Keeps-bind R (Keeps-read R list_recurring_subscriptions-Unchanged) (λ subs.
        Keeps-bind R (Keeps-now_second R env) (λ now.
          process_subscriptions-Keeps codec env now subs (record { emitted = 0; skipped = 0 })))
