-- ===== src/Store/Db/Inserts.antt =====
-- `INSERT` of internal/store/store.go against a relation between the tables.
use mathlib.Core.Option
use metery.Prelude.{
  Bool, List, ◌≡◌, sym, ap, subst, ◌∙◌, some, Option-cases, inl, inr, none≢some, some_inj,
}
use metery.Store.Table.{insert_row}
use metery.Store.Db.{Db, try_modify}
use metery.Store.Db.Keeps.{Relation, Keeps, Keeps-try_modify}

-- The rows that the table has after an insert that it took, and what they make of the tables.
pub inserted :
    {A : Type 0} (conflict : A → A → Bool) (row : A) (rows : List A) (put : List A → Db) (d' : Db)
    → Option.map put (insert_row conflict row rows) ≡ some d'
    → (after : List A) × (insert_row conflict row rows ≡ some after) × (put after ≡ d')
inserted conflict row rows put d' e = elim (Option-cases (insert_row conflict row rows)) [
  | inl n ↦ absurd (none≢some (sym (ap (λ o. Option.map put o) n) ∙ e))
  | inr (after, r) ↦ (after, r, some_inj (sym (ap (λ o. Option.map put o) r) ∙ e))
]

-- A relation that holds over the rows that an insert leaves.
pub Keeps-insert :
    (R : Relation) {A : Type 0} (conflict : A → A → Bool) (row : A) (table : Db → List A)
    (put : Db → List A → Db)
    → ((d : Db) (after : List A)
        → insert_row conflict row (table d) ≡ some after
        → R.rel d (put d after))
    → Keeps R (try_modify (λ d. Option.map (put d) (insert_row conflict row (table d))))
Keeps-insert R conflict row table put law = Keeps-try_modify R _ (λ d d' e.
    let (after, r, same) = inserted conflict row (table d) (put d) d' e in
    subst (λ x. R.rel d x) same (law d after r))
