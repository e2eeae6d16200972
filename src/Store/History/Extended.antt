-- ===== src/Store/History/Extended.antt =====
-- A table before and after: its rows, each changed in place or not, and rows behind them.
use metery.Prelude.{
  Bool, true, List, [], ◌∷◌, ◌++◌, any, some, ◌≡◌, subst, Bool-cases, inl, inr, none≢some, some_inj,
}
use metery.Store.Table.{insert_row, insert_or_ignore, update_where}

pub data Extends {A : Type 0} (P : A → A → Type 0) : List A → List A → Type 0 where
  added : (ys : List A) → Extends P [] ys
  stays : (x y : A) (xs ys : List A) → P x y → Extends P xs ys → Extends P (x ∷ xs) (y ∷ ys)

module _ {A : Type 0} (P : A → A → Type 0) where
  pub Extends-trans :
      ((a b c : A) → P a b → P b c → P a c)
      → (xs ys zs : List A) → Extends P xs ys
      → Extends P ys zs
      → Extends P xs zs
  Extends-trans trans xs ys zs (added _) k = added zs
  Extends-trans trans xs ys zs (stays x y xs' ys' p h) (stays _ z _ zs' q k) =
      stays x z xs' zs' (trans x y z p q) (Extends-trans trans xs' ys' zs' h k)

  module _ (same : (a : A) → P a a) where
    Extends-append : (xs ys : List A) → Extends P xs (xs ++ ys)
    Extends-append [] ys = added ys
    Extends-append (x ∷ xs) ys = stays x x xs (xs ++ ys) (same x) (Extends-append xs ys)

    pub Extends-refl : (xs : List A) → Extends P xs xs
    Extends-refl [] = added []
    Extends-refl (x ∷ xs) = stays x x xs xs (same x) (Extends-refl xs)

    pub Extends-insert_row :
        (conflict : A → A → Bool) (x : A) (xs after : List A)
        → insert_row conflict x xs ≡ some after
        → Extends P xs after
    Extends-insert_row conflict x xs after e = elim (Bool-cases (any (conflict x) xs)) [
      | inl clash ↦ absurd (none≢some (rw clash at e))
      | inr apart ↦ subst (Extends P xs) (some_inj (rw apart at e)) (Extends-append xs (x ∷ []))
    ]

    pub Extends-insert_or_ignore :
        (conflict : A → A → Bool) (x : A) (xs : List A)
        → Extends P xs (insert_or_ignore conflict x xs)
    Extends-insert_or_ignore conflict x xs = elim (Bool-cases (any (conflict x) xs)) [
      | inl there ↦ rw there (Extends-refl xs)
      | inr apart ↦ rw apart (Extends-append xs (x ∷ []))
    ]

    pub Extends-update_where :
        (p : A → Bool) (set : A → A)
        → ((x : A) → p x ≡ true → P x (set x))
        → (xs : List A) → Extends P xs (update_where p set xs)
    Extends-update_where p set changed [] = added []
    Extends-update_where p set changed (x ∷ xs) =
        let rest = Extends-update_where p set changed xs in
        elim (Bool-cases (p x)) [
          | inl e ↦ rw e (stays x (set x) xs (update_where p set xs) (changed x e) rest)
          | inr e ↦ rw e (stays x x xs (update_where p set xs) (same x) rest)
        ]
