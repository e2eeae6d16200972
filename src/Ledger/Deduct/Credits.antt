-- ===== src/Ledger/Deduct/Credits.antt =====
-- Deduction by numbers: what is left of the credits is the credits less the usage, and what is
-- left of the usage is the usage less the credits, both cut off at 0.
use metery.Prelude.{
  ℕ, ◌+◌, ◌-◌, ◌^◌, ◌<◌, ℤ, pos, pos_part, leb_ℤ, ◌≤ℤ◌, List, [], ◌∷◌, ◌≡◌, ◌∙◌, arith, int_laws,
  IsAmount, All, sum_of, sub64_amounts, add64_amounts, Bool-cases, inl, inr, leb_ℤ→le, leb_ℤ→lt,
}
use metery.Ledger.Types.{ActiveGrant}
use metery.Ledger.Deduct.{burn, deduct, add_remaining}

-- Every grant's remainder is a number of credits.
abbrev pub AllAmounts : List ActiveGrant → Type 0
AllAmounts = All (λ ag. IsAmount ag.remaining)

abbrev pub left : ActiveGrant → ℕ
left ag = pos_part ag.remaining

-- All the credits of the grants.
abbrev pub credits : List ActiveGrant → ℕ
credits = sum_of left

pub burn-amounts :
    (u : ℤ) (ag : ActiveGrant)
    → IsAmount u
    → IsAmount ag.remaining
    → IsAmount (burn u ag).0
      × IsAmount (burn u ag).1.remaining
      × (pos_part (burn u ag).0 ≡ pos_part u - left ag)
      × (left (burn u ag).1 ≡ left ag - pos_part u)
unfolding burn
burn-amounts u ag hu hg = elim (Bool-cases (leb_ℤ u ag.remaining)) [
  | inl e ↦
      let le : u ≤ℤ ag.remaining = leb_ℤ→le u ag.remaining e in
      rw (e, sub64_amounts ag.remaining u hg hu le) (omega arith)
  | inr e ↦
      let le : ag.remaining ≤ℤ u = omega (arith, leb_ℤ→lt u ag.remaining e) in
      rw (e, sub64_amounts u ag.remaining hu hg le) (omega arith)
]

-- For a usage and remaining amounts from 0 up to 2^63 - 1, the deduction loop leaves amounts in
-- that range, the usage that is left is max(0, usage - credits), and the credits that are left
-- are max(0, credits - usage).
pub deduct-amounts :
    (u : ℤ) (gs : List ActiveGrant)
    → IsAmount u
    → AllAmounts gs
    → let (rest, gs') = deduct u gs in
      IsAmount rest
      × AllAmounts gs'
      × (pos_part rest ≡ pos_part u - credits gs)
      × (credits gs' ≡ credits gs - pos_part u)
unfolding deduct
deduct-amounts u [] hu h = (hu, tt, omega arith, omega arith)
deduct-amounts u (g ∷ gs) hu h = elim (Bool-cases (leb_ℤ u (pos 0))) [
  | inl e ↦ rw e (hu, h, omega (arith, leb_ℤ→le u (pos 0) e), omega (arith, leb_ℤ→le u (pos 0) e))
  | inr e ↦
      let (hb, hg, used, kept) = burn-amounts u g hu h.0 in
      let (hr, hs, used_rest, kept_rest) = deduct-amounts (burn u g).0 gs hb h.1 in
      rw e (hr, (hg, hs), omega (arith, used, used_rest), omega (arith, used, kept, kept_rest))
]

-- With no overflow the sum of the grants is all the credits.
pub add_remaining-credits :
    (total : ℤ) (gs : List ActiveGrant)
    → IsAmount total
    → AllAmounts gs
    → pos_part total + credits gs < 2 ^ 63
    → add_remaining total gs ≡ pos (pos_part total + credits gs)
unfolding add_remaining
add_remaining-credits total [] ht h fits = omega int_laws
add_remaining-credits total (g ∷ gs) ht h fits =
    rw (add64_amounts total g.remaining ht h.0 (omega arith)) (
      add_remaining-credits (pos (pos_part total + left g)) gs (omega arith) h.1 (omega arith)
      ∙ omega int_laws)
