-- ===== src/Ledger/Deduct/Order.antt =====
-- The deduction follows the order of the list.
use metery.Prelude.{
  ◌≤◌, ℤ, pos, pos_part, leb_ℤ, true, List, [], ◌∷◌, ◌++◌, ◌≡◌, refl, ap, arith, IsAmount,
  Bool-cases, inl, inr,
}
use metery.Ledger.Types.{ActiveGrant}
use metery.Ledger.Deduct.{burn, deduct}
use metery.Ledger.Deduct.Credits.{AllAmounts, credits, burn-amounts}

deduct-nothing : (u : ℤ) (gs : List ActiveGrant) → leb_ℤ u (pos 0) ≡ true → deduct u gs ≡ (u, gs)
unfolding deduct
deduct-nothing u [] e = refl
deduct-nothing u (g ∷ gs) e = rw e

-- For a usage and remaining amounts from 0 up to 2^63 - 1, when the first grants of a list cover
-- the usage, the deduction loop leaves all grants behind them as they are: a grant is drawn on
-- only when those before it do not suffice.
pub deduct-append :
    (u : ℤ) (xs ys : List ActiveGrant)
    → IsAmount u
    → AllAmounts xs
    → pos_part u ≤ credits xs
    → (deduct u (xs ++ ys)).1 ≡ (deduct u xs).1 ++ ys
unfolding deduct
deduct-append u [] ys hu h cover = ap (λ r. r.1) (deduct-nothing u ys (idle u hu cover))
  where
    idle : (u : ℤ) → IsAmount u → pos_part u ≤ 0 → leb_ℤ u (pos 0) ≡ true
    idle u hu h = ground arith
deduct-append u (x ∷ xs) ys hu h cover = elim (Bool-cases (leb_ℤ u (pos 0))) [
  | inl e ↦ rw e
  | inr e ↦
      let (hb, _, used, _) = burn-amounts u x hu h.0 in
      rw e (ap (◌∷◌ (burn u x).1) (deduct-append (burn u x).0 xs ys hb h.1 (omega (arith, used))))
]
