-- ===== src/Prelude/Permuted.antt =====
-- What a rearrangement of a list leaves alone: sums, and properties of all entries.
use mathlib.Core.HLevel.{×_prop, Unit-prop}
use mathlib.Core.Logic.{∥∥₁_elim}
use mathlib.Core.List.{List, [], ◌∷◌, Perm}
use mathlib.Core.List.Perm
use mathlib.Core.List.{Permᴰ}
use mathlib.Core.Path.{◌≡◌, refl, ap, ◌∙◌, subst}
use native.Mathlib.Nat.{ℕ_set}
use native.Mathlib.Omega.{arith}
use Prim.Native.Nat.{ℕ}
use metery.Prelude.Lists.{sum_of, All}

sum_of-permᴰ {ℓ} :
    {A : Type ℓ} (f : A → ℕ) {xs ys : List A} → Permᴰ xs ys → sum_of f xs ≡ sum_of f ys
sum_of-permᴰ f Permᴰ.nil = refl
sum_of-permᴰ f (Permᴰ.cons e p) = omega (arith, ap f e, sum_of-permᴰ f p)
sum_of-permᴰ f (Permᴰ.swap e e') = omega (arith, ap f e, ap f e')
sum_of-permᴰ f (Permᴰ.trans p q) = sum_of-permᴰ f p ∙ sum_of-permᴰ f q

pub sum_of-perm {ℓ} :
    {A : Type ℓ} (f : A → ℕ) {xs ys : List A} → Perm xs ys → sum_of f xs ≡ sum_of f ys
sum_of-perm f p = ∥∥₁_elim p (ℕ_set _ _) (sum_of-permᴰ f)

module _ {ℓ κ} {A : Type ℓ} (P : A → Type κ) where
  All-permᴰ : {xs ys : List A} → Permᴰ xs ys → All P xs → All P ys
  All-permᴰ Permᴰ.nil h = h
  All-permᴰ (Permᴰ.cons e p) h = (subst P e h.0, All-permᴰ p h.1)
  All-permᴰ (Permᴰ.swap e e') h = (subst P e' h.1.0, (subst P e h.0, h.1.1))
  All-permᴰ (Permᴰ.trans p q) h = All-permᴰ q (All-permᴰ p h)

  All-prop : ((a : A) → IsProp (P a)) → (xs : List A) → IsProp (All P xs)
  All-prop prop [] = Unit-prop
  All-prop prop (x ∷ xs) = ×_prop (prop x) (All-prop prop xs)

  pub All-perm : ((a : A) → IsProp (P a)) → {xs ys : List A} → Perm xs ys → All P xs → All P ys
  All-perm prop {ys = ys} p h = ∥∥₁_elim p (All-prop prop ys) (λ q. All-permᴰ q h)

singletonᴰ {ℓ} : {A : Type ℓ} {xs ys : List A} {a : A} → Permᴰ xs ys → ys ≡ a ∷ [] → xs ≡ a ∷ []
singletonᴰ Permᴰ.nil e = e
singletonᴰ (Permᴰ.cons {l₂ = []} h p) e = cc (Perm.eq-nil ∣ p ∣₁)
singletonᴰ (Permᴰ.cons {l₂ = y ∷ l} h p) e = cc
singletonᴰ (Permᴰ.swap h h') e = cc
singletonᴰ (Permᴰ.trans p q) e = singletonᴰ p (singletonᴰ q e)

pub perm-singleton {ℓ} :
    {A : Type ℓ} {xs : List A} {a : A} → IsSet (List A) → Perm xs (a ∷ []) → xs ≡ a ∷ []
perm-singleton set p = ∥∥₁_elim p (set _ _) (λ q. singletonᴰ q refl)
