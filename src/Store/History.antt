-- ===== src/Store/History.antt =====
-- What the writes of internal/store/store.go may do to the rows that the tables have: which columns
-- a statement sets, and which are set once.
pub mod Extended
pub mod Tables
pub mod Writes
use metery.Prelude.{Option, none, some, List, ◌≡◌, refl, ◌∙◌, ap}
use metery.Time.{Time}
use metery.Store.Rows.{
  Customer, Meter, Feature, EntitlementRow, GrantRow, Event, SnapshotRow, PlanRow, SubscriptionRow,
  User,
}
use metery.Store.Db.{Db}
use metery.Store.Db.Keeps.{Relation}
use Extended.{Extends, Extends-refl, Extends-trans}

pub data Table : Type 0 where
  customer_table meter_table feature_table entitlement_table grant_table event_table : Table
  snapshot_table plan_table subscription_table user_table : Table

abbrev pub Row : Table → Type 0
Row customer_table = Customer
Row meter_table = Meter
Row feature_table = Feature
Row entitlement_table = EntitlementRow
Row grant_table = GrantRow
Row event_table = Event
Row snapshot_table = SnapshotRow
Row plan_table = PlanRow
Row subscription_table = SubscriptionRow
Row user_table = User

abbrev pub rows : (t : Table) → Db → List (Row t)
rows customer_table d = d.customers
rows meter_table d = d.meters
rows feature_table d = d.features
rows entitlement_table d = d.entitlements
rows grant_table d = d.grants
rows event_table d = d.events
rows snapshot_table d = d.snapshots
rows plan_table d = d.plans
rows subscription_table d = d.subscriptions
rows user_table d = d.users

-- A column that stays as it is once it is set.
abbrev pub Once : Option Time → Option Time → Type 0
Once none o = Unit {0}
Once (some t) o = o ≡ some t

-- What may become of a row: the columns that the update names may change, the rest does not, and an
-- end that is set stays.
abbrev pub Change : (t : Table) → Row t → Row t → Type 0
Change customer_table a b =
    (b ≡ record a { name = b.name; deactivated_at = b.deactivated_at })
    × Once a.deactivated_at b.deactivated_at
Change meter_table a b =
    (b ≡ record a { archived_at = b.archived_at }) × Once a.archived_at b.archived_at
Change feature_table a b =
    (b ≡ record a { archived_at = b.archived_at }) × Once a.archived_at b.archived_at
Change entitlement_table a b =
    (b ≡ record a { usage_period_anchor = b.usage_period_anchor; deleted_at = b.deleted_at })
    × Once a.deleted_at b.deleted_at
Change grant_table a b = (b ≡ record a { voided_at = b.voided_at }) × Once a.voided_at b.voided_at
Change event_table a b = a ≡ b
Change snapshot_table a b = a ≡ b
Change plan_table a b =
    (b ≡ record a { archived_at = b.archived_at }) × Once a.archived_at b.archived_at
Change subscription_table a b =
    (b ≡ record a { plan_id = b.plan_id; ends_at = b.ends_at; canceled_at = b.canceled_at })
    × Once a.canceled_at b.canceled_at
    × Once a.ends_at b.ends_at
Change user_table a b = b ≡ record a { email = b.email; name = b.name }

-- No row is removed, and a row that stays changes only so.
pub record IsHistory (d e : Db) : Type 0 where
  pub extends : (t : Table) → Extends (Change t) (rows t d) (rows t e)

pub Once-refl : (o : Option Time) → Once o o
Once-refl none = tt
Once-refl (some t) = refl

Once-trans : (a b c : Option Time) → Once a b → Once b c → Once a c
Once-trans none b c h k = tt
Once-trans (some t) none c h k = absurd (cc)
Once-trans (some t) (some u) c h k = k ∙ h

pub Change-refl : (t : Table) (a : Row t) → Change t a a
Change-refl customer_table a = (refl, Once-refl a.deactivated_at)
Change-refl meter_table a = (refl, Once-refl a.archived_at)
Change-refl feature_table a = (refl, Once-refl a.archived_at)
Change-refl entitlement_table a = (refl, Once-refl a.deleted_at)
Change-refl grant_table a = (refl, Once-refl a.voided_at)
Change-refl event_table a = refl
Change-refl snapshot_table a = refl
Change-refl plan_table a = (refl, Once-refl a.archived_at)
Change-refl subscription_table a = (refl, Once-refl a.canceled_at, Once-refl a.ends_at)
Change-refl user_table a = refl

pub Change-trans : (t : Table) (a b c : Row t) → Change t a b → Change t b c → Change t a c
Change-trans customer_table a b c h k = (
  k.0 ∙ ap (λ (r : Customer). record r { name = c.name; deactivated_at = c.deactivated_at }) h.0,
  Once-trans a.deactivated_at b.deactivated_at c.deactivated_at h.1 k.1,
)
Change-trans meter_table a b c h k = (
  k.0 ∙ ap (λ (r : Meter). record r { archived_at = c.archived_at }) h.0,
  Once-trans a.archived_at b.archived_at c.archived_at h.1 k.1,
)
Change-trans feature_table a b c h k = (
  k.0 ∙ ap (λ (r : Feature). record r { archived_at = c.archived_at }) h.0,
  Once-trans a.archived_at b.archived_at c.archived_at h.1 k.1,
)
Change-trans entitlement_table a b c h k = (
  k.0
      ∙ ap
          (λ (r : EntitlementRow). record r {
            usage_period_anchor = c.usage_period_anchor;
            deleted_at = c.deleted_at;
          })
          h.0,
  Once-trans a.deleted_at b.deleted_at c.deleted_at h.1 k.1,
)
Change-trans grant_table a b c h k = (
  k.0 ∙ ap (λ (r : GrantRow). record r { voided_at = c.voided_at }) h.0,
  Once-trans a.voided_at b.voided_at c.voided_at h.1 k.1,
)
Change-trans event_table a b c h k = h ∙ k
Change-trans snapshot_table a b c h k = h ∙ k
Change-trans plan_table a b c h k = (
  k.0 ∙ ap (λ (r : PlanRow). record r { archived_at = c.archived_at }) h.0,
  Once-trans a.archived_at b.archived_at c.archived_at h.1 k.1,
)
Change-trans subscription_table a b c h k = (
  k.0
      ∙ ap
          (λ (r : SubscriptionRow). record r {
            plan_id = c.plan_id;
            ends_at = c.ends_at;
            canceled_at = c.canceled_at;
          })
          h.0,
  Once-trans a.canceled_at b.canceled_at c.canceled_at h.1 k.1,
  Once-trans a.ends_at b.ends_at c.ends_at h.2 k.2,
)
Change-trans user_table a b c h k =
    k ∙ ap (λ (r : User). record r { email = c.email; name = c.name }) h

pub extends_refl : (t : Table) (xs : List (Row t)) → Extends (Change t) xs xs
extends_refl t xs = Extends-refl (Change t) (Change-refl t) xs

abbrev pub history : Relation
history = record {
  rel = IsHistory;
  rel_refl = λ d. record { extends = λ t. extends_refl t (rows t d) };
  rel_trans = λ d e f g h. record {
    extends = λ t.
        Extends-trans (Change t) (Change-trans t) (rows t d) (rows t e) (rows t f) (g.extends t)
          (h.extends t);
  };
}
