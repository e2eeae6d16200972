-- ===== src/Store/Table/Page.antt =====
-- What a listing answers with: how many rows, and which.
use mathlib.Core.Bool.{Bool-set}
use mathlib.Core.Logic.Or
use mathlib.Core.List.{Perm, Pairwise, Pairwise-singleton, mem-cons}
use mathlib.Core.List.Perm
use metery.Prelude.{
  ℕ, suc, zero, ◌-◌, pos, Bool, false, String, List, [], ◌∷◌, ◌++◌, filter, length, count, take,
  text_lt, text_lt_asymm, text_lt_trans, ◌≡◌, refl, sym, ap, subst, ◌∙◌, arith, Bool-cases, inl,
  inr,
}
use metery.Store.Table.{insert_sorted, order_by, limit_rows}

module _ {A : Type 0} (key : A → String) where
  abbrev pub by_key : A → A → Bool
  by_key a b = text_lt (key a) (key b)

  -- No row has a key that is before the key of a row ahead of it.
  abbrev pub IsAscending : List A → Type 0
  IsAscending = Pairwise (λ a b. by_key b a ≡ false)

  insert_sorted-perm : (x : A) (ys : List A) → Perm (insert_sorted by_key x ys) (x ∷ ys)
  insert_sorted-perm x [] = Perm.rfl
  insert_sorted-perm x (y ∷ ys) = elim (Bool-cases (by_key y x)) [
    | inl e ↦ rw e (Perm.trans (Perm.cons y (insert_sorted-perm x ys)) (Perm.swap x y ys))
    | inr e ↦ rw e Perm.rfl
  ]

  order_by-perm : (xs : List A) → Perm (order_by by_key xs) xs
  order_by-perm [] = Perm.rfl
  order_by-perm (x ∷ xs) =
      Perm.trans (insert_sorted-perm x (order_by by_key xs)) (Perm.cons x (order_by-perm xs))

  insert_sorted-IsAscending :
      (x : A) {ys : List A} → IsAscending ys → IsAscending (insert_sorted by_key x ys)
  insert_sorted-IsAscending x Pairwise.nil = Pairwise-singleton _ x
  insert_sorted-IsAscending x (Pairwise.cons {a = y} {l = ys} below s) =
      elim (Bool-cases (by_key y x)) [
        | inl e ↦ rw e (
            Pairwise.cons
              (λ z m.
                Or.elim (Bool-set _ _) (mem-cons.0 ((Perm.mem_iff (insert_sorted-perm x ys)).0 m))
                  (λ same.
                    subst (λ w. by_key w y ≡ false) (sym same) (text_lt_asymm (key y) (key x) e))
                  (λ later. below z later))
              (insert_sorted-IsAscending x s))
        | inr e ↦ rw e (
            Pairwise.cons
              (λ z m.
                Or.elim (Bool-set _ _) (mem-cons.0 m)
                  (λ same. subst (λ w. by_key w x ≡ false) (sym same) e)
                  (λ later. text_lt_trans (key z) (key y) (key x) (below z later) e))
              (Pairwise.cons below s))
      ]

  order_by-IsAscending : (xs : List A) → IsAscending (order_by by_key xs)
  order_by-IsAscending [] = Pairwise.nil
  order_by-IsAscending (x ∷ xs) = insert_sorted-IsAscending x (order_by-IsAscending xs)

drop_rows : {A : Type 0} → ℕ → List A → List A
drop_rows zero xs = xs
drop_rows (suc n) [] = []
drop_rows (suc n) (x ∷ xs) = drop_rows n xs

take-drop_rows : {A : Type 0} (n : ℕ) (xs : List A) → take n xs ++ drop_rows n xs ≡ xs
unfolding drop_rows
take-drop_rows zero xs = refl
take-drop_rows (suc n) [] = refl
take-drop_rows (suc n) (x ∷ xs) = ap (◌∷◌ x) (take-drop_rows n xs)

length-take : {A : Type 0} (n : ℕ) (xs : List A) → length (take n xs) ≡ length xs - (length xs - n)
length-take zero xs = omega arith
length-take (suc n) [] = omega arith
length-take (suc n) (x ∷ xs) = let rest = length-take n xs in omega (arith, rest)

module _ {A : Type 0} (key : A → String) (p : A → Bool) where
  -- The rows are the first of those that match by their keys: there are n of them, or all; with
  -- the others they are the rows of the table that match, each as often as it is there; and no
  -- row, of the page or not, is before one that the page has ahead of it.
  pub record IsPage (n : ℕ) (table rows : List A) : Type 0 where
    pub size : length rows ≡ count p table - (count p table - n)
    pub others : List A
    pub matching : Perm (rows ++ others) (filter p table)
    pub ascending : IsAscending key (rows ++ others)

  length-insert_sorted :
      (x : A) (xs : List A) → length (insert_sorted (by_key key) x xs) ≡ suc (length xs)
  length-insert_sorted x [] = refl
  length-insert_sorted x (y ∷ ys) = elim (Bool-cases (by_key key y x)) [
    | inl e ↦ rw e (ap suc (length-insert_sorted x ys))
    | inr e ↦ rw e refl
  ]

  length-order_by : (xs : List A) → length (order_by (by_key key) xs) ≡ length xs
  length-order_by [] = refl
  length-order_by (x ∷ xs) =
      length-insert_sorted x (order_by (by_key key) xs) ∙ ap suc (length-order_by xs)

  length-filter : (xs : List A) → length (filter p xs) ≡ count p xs
  length-filter [] = refl
  length-filter (x ∷ xs) = elim (Bool-cases (p x)) [
    | inl e ↦ let rest = length-filter xs in rw e (omega (arith, rest))
    | inr e ↦ let rest = length-filter xs in rw e (omega (arith, rest))
  ]

  pub limit_rows-IsPage :
      (n : ℕ) (table : List A)
      → IsPage n table (limit_rows (pos n) (order_by (by_key key) (filter p table)))
  limit_rows-IsPage n table =
      let rows = order_by (by_key key) (filter p table) in
      let whole : length rows ≡ count p table =
        length-order_by (filter p table) ∙ length-filter table in
      let cut = length-take n rows in
      record {
        size = omega (arith, whole, cut);
        others = drop_rows n rows;
        matching = rw (take-drop_rows n rows) (order_by-perm key (filter p table));
        ascending = rw (take-drop_rows n rows) (order_by-IsAscending key (filter p table));
      }
