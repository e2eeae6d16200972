-- ===== src/Ledger/Balance/Stateless.antt =====
-- The balance of an entitlement with no usage period.
use mathlib.Core.HLevel.{×_prop}
use mathlib.Core.List.Perm
use native.Mathlib.Nat.{ℕ_set}
use native.Mathlib.Bridge.{le_prop}
use metery.Prelude.{
  ℕ, ◌-◌, ◌^◌, ◌<◌, ℤ, pos, pos_part, ltb, ltb_ℤ, leb_ℤ, Bool, Option, none, some, not, ◌&&◌, List,
  [], ◌∷◌, map, filter, if◌then◌else◌, ◌≡◌, refl, ◌∙◌, arith, int_laws, IsAmount, All, sum_of,
  sum_of-perm, All-perm, Bool-cases, inl, inr,
}
use metery.Time.{Time, after}
use metery.Ledger.Types.{Grant, ActiveGrant}
use metery.Ledger.Deduct.{Sorter, deduct, add_remaining}
use metery.Ledger.Deduct.Credits.{AllAmounts, left, credits, deduct-amounts, add_remaining-credits}
use metery.Ledger.Balance.{live_at, activate, calculate_stateless_balance}

-- What is on offer at t of an amount that counts from one instant on and until another comes, if
-- there is one.
abbrev pub on_offer : Time → Time → Option Time → ℤ → ℕ
on_offer t from none amount = if leb_ℤ from t then pos_part amount else 0
on_offer t from (some until) amount = if leb_ℤ from t && ltb_ℤ t until then pos_part amount else 0

-- All credits on offer at t.
abbrev pub offered : Time → List Grant → ℕ
offered t = sum_of (λ g. on_offer t g.effective_at g.expires_at g.amount)

-- The filter of the code.
abbrev is_usable : Time → Grant → Bool
is_usable t g = not (after g.effective_at t) && live_at t g.expires_at

on_offer-is_usable :
    (t from : Time) (expires : Option Time) (amount : ℤ)
    → on_offer t from expires amount
      ≡ (if not (after from t) && live_at t expires then pos_part amount else 0)
on_offer-is_usable t from none amount = ground arith
on_offer-is_usable t from (some until) amount = ground arith

module _ (t : Time) where
  credits-active :
      (gs : List Grant) → credits (map activate (filter (is_usable t) gs)) ≡ offered t gs
  credits-active [] = refl
  credits-active (g ∷ gs) = elim (Bool-cases (is_usable t g)) [
    | inl e ↦
        let one : on_offer t g.effective_at g.expires_at g.amount ≡ pos_part g.amount =
          on_offer-is_usable t g.effective_at g.expires_at g.amount ∙ rw e refl in
        rw (e, one) (omega (arith, credits-active gs))
    | inr e ↦
        let no : on_offer t g.effective_at g.expires_at g.amount ≡ 0 =
          on_offer-is_usable t g.effective_at g.expires_at g.amount ∙ rw e refl in
        rw (e, no) (omega (arith, credits-active gs))
  ]

  AllAmounts-active :
      (gs : List Grant)
      → All (λ g. IsAmount g.amount) gs
      → AllAmounts (map activate (filter (is_usable t) gs))
  AllAmounts-active [] h = tt
  AllAmounts-active (g ∷ gs) h = elim (Bool-cases (is_usable t g)) [
    | inl e ↦ rw e (h.0, AllAmounts-active gs h.1)
    | inr e ↦ rw e (AllAmounts-active gs h.1)
  ]

IsAmount-prop : (ag : ActiveGrant) → IsProp (IsAmount ag.remaining)
IsAmount-prop ag = ×_prop (ℕ_set _ _) le_prop

-- Sorting moves no credits.
pub credits-sort : (sorter : Sorter) (gs : List ActiveGrant) → credits (sorter.sort gs) ≡ credits gs
credits-sort sorter gs = sum_of-perm left (sorter.sort-perm gs)

pub AllAmounts-sort :
    (sorter : Sorter) (gs : List ActiveGrant) → AllAmounts gs → AllAmounts (sorter.sort gs)
AllAmounts-sort sorter gs h = All-perm _ IsAmount-prop (Perm.symm (sorter.sort-perm gs)) h

-- For any sorter, any t, any grants with amounts from 0 up to 2^63 - 1 whose amounts usable at t
-- (effective by t, not expired at t) sum to less than 2^63, and any usage in the same range,
-- `calculateStatelessBalance` answers with the balance max(0, offered - usage), the overage
-- max(0, usage - offered), and access exactly if usage < offered, `offered` being that sum.
pub calculate_stateless_balance-offered :
    (sorter : Sorter) (t : Time) (grants : List Grant) (usage : ℤ)
    → IsAmount usage
    → All (λ g. IsAmount g.amount) grants
    → offered t grants < 2 ^ 63
    → let r = calculate_stateless_balance sorter t grants usage in
      (r.balance ≡ pos (offered t grants - pos_part usage))
      × (r.overage ≡ pos (pos_part usage - offered t grants))
      × (r.has_access ≡ ltb (pos_part usage) (offered t grants))
unfolding calculate_stateless_balance
calculate_stateless_balance-offered sorter t grants usage hu h fits =
    let active = map activate (filter (is_usable t) grants) in
    let amounts = AllAmounts-sort sorter active (AllAmounts-active t grants h) in
    let (hr, hs, rest, kept) = deduct-amounts usage (sorter.sort active) hu amounts in
    let same : credits (sorter.sort active) ≡ offered t grants =
      credits-sort sorter active ∙ credits-active t grants in
    let sum : add_remaining (pos 0) (deduct usage (sorter.sort active)).1
        ≡ pos (offered t grants - pos_part usage) =
      add_remaining-credits (pos 0) (deduct usage (sorter.sort active)).1 (omega arith) hs
        (omega (arith, kept, same))
      ∙ omega (int_laws, kept, same) in
    (sum, omega (int_laws, hr, rest, same), rw sum (ground arith))
