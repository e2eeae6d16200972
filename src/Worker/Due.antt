-- ===== src/Worker/Due.antt =====
-- An entry of a plan whose next grant is due (internal/worker/recurrence.go).
use metery.Prelude.{
  ◌+◌, ℤ, pos, ltb_ℤ, leb_ℤ, true, false, Option, none, some, String, List, [], ◌∷◌, ◌++◌, any,
  find?, ◌==◌, ==_refl, ◌≡◌, refl, ap, ◌∙◌, arith,
}
use metery.Time.{Time, after}
use metery.Duration.{Duration, IsForward}
use metery.Store.Rows.{Feature, GrantRow}
use metery.Store.Constraints.{same_grant}
use metery.Store.Db.{
  Env, World, Result, ok, StoreError, no_rows, ◌>>=◌, pure, or_fail, new_ulid, try_modify-some,
}
use metery.Store.Catalog.{names_feature, get_feature}
use metery.Store.Entitlements.{add_grant, create_grant}
use metery.Store.Subscriptions.{RecurringSubscription}
use metery.Service.Rpc.{get_or, or_nil, PlanEntry, GrantTemplate, Codec, shift_time}
use metery.Worker.{
  Tally, emit, entitlement_by_feature, base_of, child_of, child_expiry, count_child, emit_child,
  emit_if_due, emit_due, process_feature, process_grant, process_entry,
}
use metery.Worker.Latest.{IsBase, get_latest_subscription_grant-IsBase}
use metery.Worker.Interval.{next_after, shift_time-next_after}

-- The priority of a template's grants.
abbrev priority_of : Option ℤ → ℤ
priority_of none = pos 100
priority_of (some p) = p

priority_of-get_or : (o : Option ℤ) → get_or o (pos 100) ≡ priority_of o
priority_of-get_or none = refl
priority_of-get_or (some p) = refl

-- The last entry for a feature is the one that counts.
entitlement_by_feature-none :
    (later : List (String × String)) (id : String)
    → any (λ e. e.0 == id) later ≡ false
    → entitlement_by_feature later id ≡ none
unfolding entitlement_by_feature
entitlement_by_feature-none [] id h = refl
entitlement_by_feature-none ((f, e) ∷ later) id h =
    let other : (f == id) ≡ false = ground (arith, h) in
    let rest = entitlement_by_feature-none later id (ground (arith, h)) in rw (rest, other) refl

entitlement_by_feature-last :
    (earlier later : List (String × String)) (id ent : String)
    → any (λ e. e.0 == id) later ≡ false
    → entitlement_by_feature (earlier ++ (id, ent) ∷ later) id ≡ some ent
unfolding entitlement_by_feature
entitlement_by_feature-last [] later id ent h =
    rw (entitlement_by_feature-none later id h, ==_refl id) refl
entitlement_by_feature-last ((f, e) ∷ earlier) later id ent h =
    rw (entitlement_by_feature-last earlier later id ent h) refl

module _ {M : Type 0} (codec : Codec M) (env : Env) (now : Time) (dur : Duration)
    (rs : RecurringSubscription) (pe : PlanEntry) where
  -- When a grant that becomes effective at an instant expires, if it does: an expiration that
  -- does not parse is left out.
  pub data IsExpiry (next : Time) (expiration : Option String) (expires : Option Time)
      : Type 0 where
    never : expiration ≡ none → expires ≡ none → IsExpiry next expiration expires
    unreadable :
        (text : String)
        → expiration ≡ some text
        → codec.parse_duration text ≡ none
        → expires ≡ none
        → IsExpiry next expiration expires
    readable :
        (text : String) (d : Duration)
        → expiration ≡ some text
        → codec.parse_duration text ≡ some d
        → IsForward d
        → expires ≡ some (next_after next d)
        → IsExpiry next expiration expires

  child_expiry-IsExpiry :
      (next : Time) (expiration : Option String) (expires : Option Time)
      → IsExpiry next expiration expires
      → child_expiry codec env now next expiration ≡ expires
  unfolding child_expiry
  child_expiry-IsExpiry next expiration expires (never e x) = rw (e, x) refl
  child_expiry-IsExpiry next expiration expires (unreadable text e p x) =
      rw (e, x) (rw (p, child_expiry) refl)
  child_expiry-IsExpiry next expiration expires (readable text d e p f x) =
      rw (e, x) (rw (p, child_expiry) (ap some (shift_time-next_after next d f)))

  -- The row of a grant of the subscription that becomes effective at an instant.
  abbrev pub due_grant : GrantTemplate → String → Time → Option Time → String → GrantRow
  due_grant g ent_id next expires id = record {
    id = id;
    entitlement_id = ent_id;
    amount = g.amount;
    priority = priority_of g.priority;
    effective_at = next;
    expires_at = expires;
    metadata = none;
    created_at = now;
    voided_at = none;
    subscription_id = some rs.subscription.id;
  }

  -- The entry has a grant, its feature is found and the subscription has an entitlement to it, the
  -- interval after the last grant (or after the start) has passed, and the database takes the row.
  pub record IsDue (w : World) : Type 0 where
    pub forward : IsForward dur
    pub grant : GrantTemplate
    pub has_grant : pe.grant ≡ some grant
    pub feature : Feature
    pub has_feature : find? (names_feature pe.feature_slug) w.db.features ≡ some feature
    pub entitlement : String
    pub earlier : List (String × String)
    pub later : List (String × String)
    pub entitled : rs.entitlement_by_feature ≡ earlier ++ (feature.id, entitlement) ∷ later
    pub counts : any (λ e. e.0 == feature.id) later ≡ false
    pub base : Time
    pub counted_from : IsBase rs.subscription entitlement w.db.grants base
    pub expires : Option Time
    pub expiry : IsExpiry (next_after base dur) grant.expiration expires
    pub begun : leb_ℤ (next_after base dur) now ≡ true
    pub positive : ltb_ℤ (pos 0) grant.amount ≡ true
    pub apart :
        any
          (same_grant
            (due_grant grant entitlement (next_after base dur) expires (env.ulid w.serial)))
          w.db.grants
        ≡ false

  module _ (w : World) (d : IsDue w) where
    abbrev next : Time
    next = next_after d.base dur

    -- The row that is due.
    abbrev pub child : GrantRow
    child = due_grant d.grant d.entitlement next d.expires (env.ulid w.serial)

    child_of-child :
        child_of codec env now rs.subscription d.entitlement d.grant next (env.ulid w.serial)
        ≡ child
    unfolding child_of
    child_of-child =
        rw
          (
            child_expiry-IsExpiry next d.grant.expiration d.expires d.expiry,
            priority_of-get_or d.grant.priority,
          )
          refl

    -- The world with the row behind the other grants, and an id used.
    abbrev pub with_child : World
    with_child = record w {
      db = record w.db { grants = w.db.grants ++ child ∷ [] };
      serial = w.serial + 1;
    }

    abbrev drawn : World
    drawn = record w { serial = w.serial + 1 }

    stored : create_grant child drawn ≡ (ok tt, with_child)
    unfolding create_grant
    stored =
        try_modify-some (add_grant child) drawn (record w.db { grants = w.db.grants ++ child ∷ [] })
          (rw (d.positive, d.apart) refl)

    found : or_nil {E = StoreError} (get_feature pe.feature_slug) w ≡ (ok (some d.feature), w)
    unfolding get_feature
    found = ap (λ o. or_nil {E = StoreError} (λ (x : World). or_fail o no_rows w) w) d.has_feature

    emitted :
        (c : Tally)
        → emit_child codec env now rs.subscription d.entitlement d.grant next c w
          ≡ (ok (emit c), with_child)
    unfolding emit_child new_ulid
    emitted c =
        ap
          (λ (s : Result StoreError (Unit {0}) × World).
            (or_nil {E = StoreError} (λ (x : World). s) >>= λ created.
            pure {E = StoreError} (count_child codec env now c created))
              drawn)
          (ap (λ g. create_grant g drawn) child_of-child ∙ stored)

    due :
        (c : Tally)
        → emit_due codec env now dur rs.subscription d.grant c (some d.entitlement) w
          ≡ (ok (emit c), with_child)
    unfolding emit_due emit_if_due
    due c =
        let (last, latest, same) =
          get_latest_subscription_grant-IsBase rs.subscription d.entitlement d.base w
            d.counted_from in
        let go = λ (t : Time).
          emit_if_due codec env now rs.subscription d.entitlement d.grant c (shift_time t dur) in
        let begun = d.begun in
        let passed : after next now ≡ false = ground (arith, begun) in
        ap
          (λ (s : Result StoreError (Option GrantRow) × World).
            ((λ (x : World). s) >>= λ last. go (base_of rs.subscription last)) w)
          latest
        ∙ ap (λ t. go t w) same
        ∙ ap (λ t. emit_if_due codec env now rs.subscription d.entitlement d.grant c t w)
            (shift_time-next_after d.base dur d.forward)
        ∙ rw passed (emitted c)

    -- For an entry of a recurring plan that is due in a world, the worker emits: processing
    -- the entry succeeds, counts one more, and leaves the world with exactly the due grant
    -- behind the other grants. Due means: the plan's interval has no minus sign and fields
    -- from 0 up to 1,000,000 of which one at least is positive; the entry has a grant of a
    -- positive amount, its feature is stored, and the last entry for it among the
    -- subscription's entitlements names one; the interval after the greatest instant at which
    -- a grant of the subscription for the entitlement is effective, or after the
    -- subscription's start if there is none, ends no later than the pass; and no stored grant
    -- conflicts with the new row, which has that end as its effective instant, the template's
    -- amount, its priority or 100, and, if the template has an expiration that parses (to a
    -- duration of the same kind as the interval), the instant that lies so far after it as
    -- its expiry.
    pub process_entry-emits :
        (c : Tally) → process_entry codec env now dur rs pe c w ≡ (ok (emit c), with_child)
    unfolding process_entry process_grant process_feature
    process_entry-emits c =
        let entitled =
          ap (λ es. entitlement_by_feature es d.feature.id) d.entitled
          ∙ entitlement_by_feature-last d.earlier d.later d.feature.id d.entitlement d.counts in
        ap (λ g. process_grant codec env now dur rs pe.feature_slug c g w) d.has_grant
        ∙ ap
            (λ (s : Result StoreError (Option Feature) × World).
              ((λ (x : World). s) >>= process_feature codec env now dur rs d.grant c) w)
            found
        ∙ ap (λ e. emit_due codec env now dur rs.subscription d.grant c e w) entitled
        ∙ due c
