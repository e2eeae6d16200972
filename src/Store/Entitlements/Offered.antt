-- ===== src/Store/Entitlements/Offered.antt =====
-- The credits that the grants of an entitlement offer, from their rows in internal/store/store.go.
use metery.Prelude.{
  ℕ, ◌+◌, ℤ, Bool, ◌&&◌, Option, some, String, List, [], ◌∷◌, map, filter, find?, All, sum_of,
  IsAmount, ◌==◌, if◌then◌else◌, ◌≡◌, refl, ap, ◌∙◌, arith, Bool-cases, inl, inr,
}
use metery.Time.{Time}
use metery.Ledger.Types.{Grant}
use metery.Ledger.Balance.Stateless.{on_offer, offered}
use metery.Store.Rows.{EntitlementRow, GrantRow}
use metery.Store.Table.{is_none, insert_sorted, order_by}
use metery.Store.Db.{World, ok}
use metery.Store.Entitlements.{by_priority, to_ledger, list_active_grants}

-- The grants of an entitlement that are not voided.
abbrev pub is_unvoided_of : String → GrantRow → Bool
is_unvoided_of id g = g.entitlement_id == id && is_none g.voided_at

-- What a row offers at an instant: its amount, from when it is effective until it expires.
abbrev pub offers : Time → GrantRow → ℕ
offers t g = on_offer t g.effective_at g.expires_at g.amount

abbrev pub stored_credits : Time → String → List GrantRow → ℕ
stored_credits t id = sum_of (λ g. if is_unvoided_of id g then offers t g else 0)

module _ {A : Type 0} (lt : A → A → Bool) where
  module _ (f : A → ℕ) where
    sum_of-insert_sorted :
        (x : A) (xs : List A) → sum_of f (insert_sorted lt x xs) ≡ f x + sum_of f xs
    sum_of-insert_sorted x [] = refl
    sum_of-insert_sorted x (y ∷ ys) = elim (Bool-cases (lt y x)) [
      | inl e ↦ rw e (omega (arith, sum_of-insert_sorted x ys))
      | inr e ↦ rw e refl
    ]

    pub sum_of-order_by : (xs : List A) → sum_of f (order_by lt xs) ≡ sum_of f xs
    sum_of-order_by [] = refl
    sum_of-order_by (x ∷ xs) =
        omega (arith, sum_of-insert_sorted x (order_by lt xs), sum_of-order_by xs)

  module _ (P : A → Type 0) where
    All-insert_sorted : (x : A) (xs : List A) → P x → All P xs → All P (insert_sorted lt x xs)
    All-insert_sorted x [] hx h = (hx, tt)
    All-insert_sorted x (y ∷ ys) hx h = elim (Bool-cases (lt y x)) [
      | inl e ↦ rw e (h.0, All-insert_sorted x ys hx h.1)
      | inr e ↦ rw e (hx, (h.0, h.1))
    ]

    pub All-order_by : (xs : List A) → All P xs → All P (order_by lt xs)
    All-order_by [] h = tt
    All-order_by (x ∷ xs) h = All-insert_sorted x (order_by lt xs) h.0 (All-order_by xs h.1)

All-filter :
    {A : Type 0} (P : A → Type 0) (p : A → Bool) (xs : List A) → All P xs → All P (filter p xs)
All-filter P p [] h = tt
All-filter P p (x ∷ xs) h = elim (Bool-cases (p x)) [
  | inl e ↦ rw e (h.0, All-filter P p xs h.1)
  | inr e ↦ rw e (All-filter P p xs h.1)
]

sum_of-filter :
    {A : Type 0} (f : A → ℕ) (p : A → Bool) (xs : List A)
    → sum_of f (filter p xs) ≡ sum_of (λ x. if p x then f x else 0) xs
sum_of-filter f p [] = refl
sum_of-filter f p (x ∷ xs) = elim (Bool-cases (p x)) [
  | inl e ↦ rw e (omega (arith, sum_of-filter f p xs))
  | inr e ↦ rw e (omega (arith, sum_of-filter f p xs))
]

module _ (cap : Option ℤ) where
  offered-map :
      (t : Time) (rows : List GrantRow)
      → offered t (map (to_ledger cap) rows) ≡ sum_of (offers t) rows
  offered-map t [] = refl
  offered-map t (g ∷ rows) = ap (λ n. offers t g + n) (offered-map t rows)

  All-map :
      (rows : List GrantRow)
      → All (λ g. IsAmount g.amount) rows
      → All (λ g. IsAmount g.amount) (map (to_ledger cap) rows)
  All-map [] h = tt
  All-map (g ∷ rows) h = (h.0, All-map rows h.1)

  -- The grants of an entitlement as the ledger takes them.
  abbrev pub active_grants : String → List GrantRow → List Grant
  active_grants id rows =
      map (to_ledger cap) (order_by by_priority (filter (is_unvoided_of id) rows))

  pub offered-active_grants :
      (t : Time) (id : String) (rows : List GrantRow)
      → offered t (active_grants id rows) ≡ stored_credits t id rows
  offered-active_grants t id rows =
      offered-map t (order_by by_priority (filter (is_unvoided_of id) rows))
      ∙ sum_of-order_by by_priority (offers t) (filter (is_unvoided_of id) rows)
      ∙ sum_of-filter (offers t) (is_unvoided_of id) rows

  pub All-active_grants :
      (id : String) (rows : List GrantRow)
      → All (λ g. IsAmount g.amount) rows
      → All (λ g. IsAmount g.amount) (active_grants id rows)
  All-active_grants id rows h = All-map (order_by by_priority (filter (is_unvoided_of id) rows)) (
      All-order_by by_priority (λ g. IsAmount g.amount) (filter (is_unvoided_of id) rows)
        (All-filter (λ g. IsAmount g.amount) (is_unvoided_of id) rows h))

pub list_active_grants_lem :
    (id : String) (e : EntitlementRow) (w : World)
    → find? (λ e. e.id == id) w.db.entitlements ≡ some e
    → list_active_grants id w ≡ (ok (active_grants e.rollover_max id w.db.grants), w)
unfolding list_active_grants
list_active_grants_lem id e w s = rw (s, list_active_grants) refl
