-- ===== src/Store/Valid/Conflicts.antt =====
-- Which rows conflict, and that no write on rows in place makes a new conflict.
use metery.Prelude.{
  ℤ, eqb_ℤ, Bool, true, false, ◌&&◌, ◌||◌, Option, none, some, String, ==_sym, ◌≡◌, refl, arith,
}
use metery.Store.Rows.{EntitlementRow, GrantRow, SubscriptionRow, SnapshotRow}
use metery.Store.Table.{is_none}
use metery.Store.Constraints.{
  same_entitlement, same_value, same_grant, same_subscription, same_snapshot,
}

and_comm : (a b : Bool) → (a && b) ≡ (b && a)
and_comm true true = refl
and_comm true false = refl
and_comm false true = refl
and_comm false false = refl

same_value_comm : (a b : Option String) → same_value a b ≡ same_value b a
same_value_comm none none = refl
same_value_comm none (some b) = refl
same_value_comm (some a) none = refl
same_value_comm (some a) (some b) = ==_sym a b

pub same_entitlement_comm : (a b : EntitlementRow) → same_entitlement a b ≡ same_entitlement b a
same_entitlement_comm a b =
    rw
      (
        ==_sym a.id b.id,
        and_comm (is_none a.deleted_at) (is_none b.deleted_at),
        ==_sym a.customer_id b.customer_id,
        ==_sym a.feature_id b.feature_id,
      )
      refl

eqb_ℤ_comm : (x y : ℤ) → eqb_ℤ x y ≡ eqb_ℤ y x
eqb_ℤ_comm x y = ground arith

pub same_grant_comm : (a b : GrantRow) → same_grant a b ≡ same_grant b a
same_grant_comm a b =
    rw
      (
        ==_sym a.id b.id,
        and_comm (is_none a.voided_at) (is_none b.voided_at),
        same_value_comm a.subscription_id b.subscription_id,
        ==_sym a.entitlement_id b.entitlement_id,
        eqb_ℤ_comm a.effective_at b.effective_at,
      )
      refl

pub same_snapshot_comm : (a b : SnapshotRow) → same_snapshot a b ≡ same_snapshot b a
same_snapshot_comm a b =
    rw (==_sym a.entitlement_id b.entitlement_id, eqb_ℤ_comm a.as_of b.as_of) refl

pub same_subscription_comm : (a b : SubscriptionRow) → same_subscription a b ≡ same_subscription b a
same_subscription_comm a b =
    rw
      (
        ==_sym a.id b.id,
        and_comm (is_none a.canceled_at) (is_none b.canceled_at),
        ==_sym a.customer_id b.customer_id,
        ==_sym a.plan_id b.plan_id,
      )
      refl

-- A row that drops out of an index conflicts by its id alone.
pub index_left : (i x : Bool) → (i || false) ≡ true → (i || x) ≡ true
index_left i x h = ground arith

pub index_right : (i q r x : Bool) → (i || ((q && false) && r)) ≡ true → (i || x) ≡ true
index_right i q r x h = ground arith
