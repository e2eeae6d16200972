-- ===== src/Store/Subscriptions/Grows.antt =====
-- What new entitlements and grants leave in the tables of internal/store/store.go.
use mathlib.Core.List.{append-nil, append_assoc}
use metery.Prelude.{
  pos, ltb_ℤ, Bool, true, some, List, [], ◌∷◌, ◌++◌, any, ◌≡◌, refl, sym, subst, ◌∙◌, arith,
  Bool-cases, inl, inr, none≢some, some_inj,
}
use metery.Store.Rows.{EntitlementRow, GrantRow}
use metery.Store.Table.{insert_row}
use metery.Store.Table.Update.{any-append}
use metery.Store.Constraints.{same_entitlement, same_grant}
use metery.Store.Db.{Db}
use metery.Store.Db.Inserts.{inserted, Keeps-insert}
use metery.Store.Db.Keeps.{Relation, Keeps, Keeps-try_modify}
use metery.Store.Entitlements.{
  stored_entitlement, stored_grant, add_grant, create_entitlement, create_grant,
}

-- New entitlements and grants behind those that are there.
pub record Grows (d e : Db) : Type 0 where
  pub new_entitlements : List EntitlementRow
  pub entitlements : e.entitlements ≡ d.entitlements ++ new_entitlements
  pub new_grants : List GrantRow
  pub grants : e.grants ≡ d.grants ++ new_grants
  pub subscriptions : e.subscriptions ≡ d.subscriptions

abbrev pub grows : Relation
grows = record {
  rel = Grows;
  rel_refl = λ d. record {
    new_entitlements = [];
    entitlements = sym (append-nil d.entitlements);
    new_grants = [];
    grants = sym (append-nil d.grants);
    subscriptions = refl;
  };
  rel_trans = λ d e f g h. record {
    new_entitlements = g.new_entitlements ++ h.new_entitlements;
    entitlements =
        rw (h.entitlements, g.entitlements)
          (append_assoc d.entitlements g.new_entitlements h.new_entitlements);
    new_grants = g.new_grants ++ h.new_grants;
    grants = rw (h.grants, g.grants) (append_assoc d.grants g.new_grants h.new_grants);
    subscriptions = h.subscriptions ∙ g.subscriptions;
  };
}

module _ (d e : Db) (g : Grows d e) where
  -- What is found stays found.
  pub any-entitlements :
      (p : EntitlementRow → Bool) → any p d.entitlements ≡ true → any p e.entitlements ≡ true
  any-entitlements p h = rw (g.entitlements, any-append p d.entitlements g.new_entitlements, h) refl

  pub any-grants : (p : GrantRow → Bool) → any p d.grants ≡ true → any p e.grants ≡ true
  any-grants p h = rw (g.grants, any-append p d.grants g.new_grants, h) refl

module _ {A : Type 0} (conflict : A → A → Bool) (x : A) (xs after : List A)
    (e : insert_row conflict x xs ≡ some after) where
  pub appended : after ≡ xs ++ x ∷ []
  appended = elim (Bool-cases (any (conflict x) xs)) [
    | inl clash ↦ absurd (none≢some (rw clash at e))
    | inr new ↦ sym (some_inj (rw new at e))
  ]

  pub any-last : (p : A → Bool) → p x ≡ true → any p after ≡ true
  any-last p h = rw (appended, any-append p xs (x ∷ []), h) (ground arith)

pub create_entitlement-Grows : (e : EntitlementRow) → Keeps grows (create_entitlement e)
unfolding create_entitlement
create_entitlement-Grows e =
    Keeps-insert grows same_entitlement (stored_entitlement e) (λ d. d.entitlements) _
      (λ d after r. record {
        new_entitlements = stored_entitlement e ∷ [];
        entitlements = appended same_entitlement (stored_entitlement e) d.entitlements after r;
        new_grants = [];
        grants = sym (append-nil d.grants);
        subscriptions = refl;
      })

-- The rows that an insert of a grant leaves.
pub add_grant_lem :
    (g : GrantRow) (d d' : Db)
    → add_grant g d ≡ some d'
    → (after : List GrantRow) × (insert_row same_grant (stored_grant g) d.grants ≡ some after)
      × (record d { grants = after } ≡ d')
add_grant_lem g d d' e = elim (Bool-cases (ltb_ℤ (pos 0) g.amount)) [
  | inr low ↦ absurd (none≢some (rw low at e))
  | inl high ↦
      inserted same_grant (stored_grant g) d.grants (λ rows. record d { grants = rows }) d'
        (rw high at e)
]

pub create_grant-Grows : (g : GrantRow) → Keeps grows (create_grant g)
unfolding create_grant
create_grant-Grows g = Keeps-try_modify grows (add_grant g) (λ d d' e.
    let (after, r, same) = add_grant_lem g d d' e in
    subst (λ x. Grows d x) same
      (record {
        new_entitlements = [];
        entitlements = sym (append-nil d.entitlements);
        new_grants = stored_grant g ∷ [];
        grants = appended same_grant (stored_grant g) d.grants after r;
        subscriptions = refl;
      }))
