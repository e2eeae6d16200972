-- ===== src/Worker/Latest.antt =====
-- Where the next cycle of a subscription is counted from (internal/worker/recurrence.go and
-- `GetLatestSubscriptionGrant` of internal/store/store.go), without the sorting.
use metery.Prelude.{
  leb_ℤ, eqb_ℤ, Bool, true, false, not, ◌&&◌, ◌||◌, Option, none, some, String, List, [], ◌∷◌, any,
  filter, find?, All, if◌then◌else◌, ◌==◌, ◌≡◌, refl, sym, ap, ◌∙◌, subst, arith, Bool-cases, inl,
  inr, none≢some, some_inj,
}
use metery.Time.{Time}
use metery.Store.Rows.{GrantRow, SubscriptionRow}
use metery.Store.Table.{is_value, insert_sorted, order_by}
use metery.Store.Db.{World, ok, StoreError, no_rows, or_fail}
use metery.Store.Entitlements.{later_first, get_latest_subscription_grant}
use metery.Service.Rpc.{or_nil}
use metery.Worker.{base_of}

-- A grant of a subscription for an entitlement.
abbrev pub is_emission : String → String → GrantRow → Bool
is_emission sub_id ent_id g = is_value g.subscription_id sub_id && g.entitlement_id == ent_id

-- The instant that the cycle is counted from: the start of a subscription that has no grant for the
-- entitlement, and otherwise the greatest instant at which a grant of it becomes effective.
pub data IsBase (sub : SubscriptionRow) (ent_id : String) (grants : List GrantRow) (base : Time)
    : Type 0 where
  from_start :
      any (is_emission sub.id ent_id) grants ≡ false
      → base ≡ sub.starts_at
      → IsBase sub ent_id grants base
  from_grant :
      any (λ g. is_emission sub.id ent_id g && eqb_ℤ g.effective_at base) grants ≡ true
      → All (λ g. (not (is_emission sub.id ent_id g) || leb_ℤ g.effective_at base) ≡ true) grants
      → IsBase sub ent_id grants base

abbrev head : List GrantRow → Option GrantRow
head = find? (λ g. true)

head-insert_sorted :
    (x : GrantRow) (ys : List GrantRow) (h : GrantRow)
    → head ys ≡ some h
    → head (insert_sorted later_first x ys) ≡ some (if later_first h x then h else x)
head-insert_sorted x [] h e = absurd (none≢some e)
head-insert_sorted x (y ∷ ys) h e =
    subst
      (λ z. head (insert_sorted later_first x (y ∷ ys)) ≡ some (if later_first z x then z else x))
      (some_inj e) (elim (Bool-cases (later_first y x)) [ inl l ↦ rw l refl | inr l ↦ rw l refl ])

-- The first row of the sorted list: its instant is the least that bounds those of the rows.
record IsLatest (xs : List GrantRow) (h : GrantRow) : Type 0 where
  first : head (order_by later_first xs) ≡ some h
  bound : All (λ g. leb_ℤ g.effective_at h.effective_at ≡ true) xs
  least : (b : Time) → All (λ g. leb_ℤ g.effective_at b ≡ true) xs → leb_ℤ h.effective_at b ≡ true

bound_up :
    (a b : Time) (xs : List GrantRow)
    → leb_ℤ a b ≡ true
    → All (λ g. leb_ℤ g.effective_at a ≡ true) xs
    → All (λ g. leb_ℤ g.effective_at b ≡ true) xs
bound_up a b [] e h = tt
bound_up a b (g ∷ xs) e h = (ground (arith, e, h.0), bound_up a b xs e h.1)

latest : (x : GrantRow) (xs : List GrantRow) → (h : GrantRow) × IsLatest (x ∷ xs) h
latest x [] = (x, record { first = refl; bound = (ground arith, tt); least = λ b k. k.0 })
latest x (y ∷ ys) =
    let (h, l) = latest y ys in
    let first = head-insert_sorted x (order_by later_first (y ∷ ys)) h l.first in
    elim (Bool-cases (later_first h x)) [
      | inl e ↦ (
        h,
        record {
          first = first ∙ rw e refl;
          bound = (ground (arith, e), l.bound);
          least = λ b k. l.least b k.1;
        },
      )
      | inr e ↦ (
        x,
        record {
          first = first ∙ rw e refl;
          bound = (
            ground arith,
            bound_up h.effective_at x.effective_at (y ∷ ys) (ground (arith, e)) l.bound,
          );
          least = λ b k. k.0;
        },
      )
    ]

-- A bound that one of the rows reaches is the instant of the first one.
latest_lem :
    (base : Time) (xs : List GrantRow)
    → any (λ g. eqb_ℤ g.effective_at base) xs ≡ true
    → All (λ g. leb_ℤ g.effective_at base ≡ true) xs
    → (h : GrantRow) × (head (order_by later_first xs) ≡ some h) × (h.effective_at ≡ base)
latest_lem base [] some_one h = absurd (ground (arith, some_one))
latest_lem base (x ∷ xs) some_one k =
    let (h, l) = latest x xs in
    (h, l.first, same h.effective_at (x ∷ xs) l.bound some_one (l.least base k))
  where
    same :
        (a : Time) (ys : List GrantRow)
        → All (λ g. leb_ℤ g.effective_at a ≡ true) ys
        → any (λ g. eqb_ℤ g.effective_at base) ys ≡ true
        → leb_ℤ a base ≡ true
        → a ≡ base
    same a [] all one e = absurd (ground (arith, one))
    same a (y ∷ ys) all one e = elim (Bool-cases (eqb_ℤ y.effective_at base)) [
      | inl here ↦ let below = all.0 in ground (arith, here, below, e)
      | inr later ↦ same a ys all.1 (ground (arith, later, one)) e
    ]

module _ (p : GrantRow → Bool) (base : Time) where
  any-filter :
      (q : GrantRow → Bool) (xs : List GrantRow)
      → any (λ g. p g && q g) xs ≡ true
      → any q (filter p xs) ≡ true
  any-filter q [] e = e
  any-filter q (x ∷ xs) e = elim (Bool-cases (p x)) [
    | inr out ↦ rw out (any-filter q xs (ground (arith, out, e)))
    | inl taken ↦ elim (Bool-cases (q x)) [
      | inl here ↦ rw (taken, here) refl
      | inr other ↦ rw (taken, other) (any-filter q xs (ground (arith, other, e)))
    ]
  ]

  All-filter :
      (xs : List GrantRow)
      → All (λ g. (not (p g) || leb_ℤ g.effective_at base) ≡ true) xs
      → All (λ g. leb_ℤ g.effective_at base ≡ true) (filter p xs)
  All-filter [] h = tt
  All-filter (x ∷ xs) h = elim (Bool-cases (p x)) [
    | inr out ↦ rw out (All-filter xs h.1)
    | inl taken ↦ let one = h.0 in rw taken (ground (arith, taken, one), All-filter xs h.1)
  ]

  filter-none : (xs : List GrantRow) → any p xs ≡ false → filter p xs ≡ []
  filter-none [] e = refl
  filter-none (x ∷ xs) e =
      let no : p x ≡ false = ground (arith, e) in rw no (filter-none xs (ground (arith, e)))

-- The store's answer is the grant, if any, that has the instant.
pub get_latest_subscription_grant-IsBase :
    (sub : SubscriptionRow) (ent_id : String) (base : Time) (w : World)
    → IsBase sub ent_id w.db.grants base
    → (last : Option GrantRow) × (or_nil {E = StoreError}
          (get_latest_subscription_grant sub.id ent_id)
          w
        ≡ (ok last, w))
      × (base_of sub last ≡ base)
unfolding get_latest_subscription_grant
get_latest_subscription_grant-IsBase sub ent_id base w (from_start n e) =
    let empty = filter-none (is_emission sub.id ent_id) base w.db.grants n in
    (
      none,
      ap
          (λ xs.
            or_nil {E = StoreError}
              (λ (x : World). or_fail (head (order_by later_first xs)) no_rows w) w)
          empty,
      sym e,
    )
get_latest_subscription_grant-IsBase sub ent_id base w (from_grant one all) =
    let p = is_emission sub.id ent_id in
    let (h, first, same) =
      latest_lem base (filter p w.db.grants)
        (any-filter p base (λ g. eqb_ℤ g.effective_at base) w.db.grants one)
        (All-filter p base w.db.grants all) in
    (some h, ap (λ o. or_nil {E = StoreError} (λ (x : World). or_fail o no_rows w) w) first, same)
