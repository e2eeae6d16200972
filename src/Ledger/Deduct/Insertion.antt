-- ===== src/Ledger/Deduct/Insertion.antt =====
-- A sorter: insertion, which Go's `sort.Slice` itself uses on short slices. It shows that the
-- promises of `Sorter` can be met.
use mathlib.Core.List.Perm
use mathlib.Core.List.{Pairwise, Pairwise-singleton, mem-cons}
use mathlib.Core.Logic.Or
use mathlib.Core.Bool.{Bool-set}
use metery.Prelude.{
  true, false, List, [], ◌∷◌, ◌≡◌, subst, sym, arith, Perm, if◌then◌else◌, Bool-cases, inl, inr,
}
use metery.Ledger.Types.{ActiveGrant}
use metery.Ledger.Deduct.{less, IsOrdered, Sorter}

insert : ActiveGrant → List ActiveGrant → List ActiveGrant
insert x [] = x ∷ []
insert x (y ∷ ys) = if less x y then x ∷ y ∷ ys else y ∷ insert x ys

unfoldable pub insertion_sort : List ActiveGrant → List ActiveGrant
unfolding insert
insertion_sort [] = []
insertion_sort (x ∷ xs) = insert x (insertion_sort xs)

less_trans : (x y z : ActiveGrant) → less x y ≡ true → less z y ≡ false → less z x ≡ false
unfolding less
less_trans x y z h k = ground arith

less_asymm : (x y : ActiveGrant) → less x y ≡ true → less y x ≡ false
unfolding less
less_asymm x y h = ground arith

insert-perm : (x : ActiveGrant) (ys : List ActiveGrant) → Perm (insert x ys) (x ∷ ys)
unfolding insert
insert-perm x [] = Perm.rfl
insert-perm x (y ∷ ys) = elim (Bool-cases (less x y)) [
  | inl e ↦ rw (e, insert) Perm.rfl
  | inr e ↦ rw (e, insert) (Perm.trans (Perm.cons y (insert-perm x ys)) (Perm.swap x y ys))
]

insert-IsOrdered :
    (x : ActiveGrant) {ys : List ActiveGrant} → IsOrdered ys → IsOrdered (insert x ys)
unfolding insert
insert-IsOrdered x Pairwise.nil = Pairwise-singleton _ x
insert-IsOrdered x (Pairwise.cons {a = y} {l = ys} below s) = elim (Bool-cases (less x y)) [
  | inl e ↦
      rw (e, insert)
        (Pairwise.cons
          (λ z m.
            Or.elim (Bool-set _ _) (mem-cons.0 m)
              (λ same. subst (λ w. less w x ≡ false) (sym same) (less_asymm x y e))
              (λ later. less_trans x y z e (below z later)))
          (Pairwise.cons below s))
  | inr e ↦
      rw (e, insert)
        (Pairwise.cons
          (λ z m.
            Or.elim (Bool-set _ _) (mem-cons.0 ((Perm.mem_iff (insert-perm x ys)).0 m))
              (λ same. subst (λ w. less w y ≡ false) (sym same) e) (λ later. below z later))
          (insert-IsOrdered x s))
]

pub insertion_sort-perm : (xs : List ActiveGrant) → Perm (insertion_sort xs) xs
unfolding insertion_sort
insertion_sort-perm [] = Perm.rfl
insertion_sort-perm (x ∷ xs) =
    Perm.trans (insert-perm x (insertion_sort xs)) (Perm.cons x (insertion_sort-perm xs))

pub insertion_sort-IsOrdered : (xs : List ActiveGrant) → IsOrdered (insertion_sort xs)
unfolding insertion_sort
insertion_sort-IsOrdered [] = Pairwise.nil
insertion_sort-IsOrdered (x ∷ xs) = insert-IsOrdered x (insertion_sort-IsOrdered xs)

abbrev pub by_insertion : Sorter
by_insertion = record {
  sort = insertion_sort;
  sort-perm = insertion_sort-perm;
  sort-IsOrdered = insertion_sort-IsOrdered;
}
