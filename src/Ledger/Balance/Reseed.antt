-- ===== src/Ledger/Balance/Reseed.antt =====
-- A snapshot keeps no entry for a grant that is used up, and the loop that starts at a snapshot
-- adds each grant without an entry anew: a used-up grant comes back whole.
use mathlib.Core.List.Perm
use native.Mathlib.Nat.{ℕ_set}
use text.Mathlib.TextEquality.{IsScalar-prop}
use metery.Prelude.{
  ◌-◌, ℤ, pos, pos_part, leb_ℤ, eqb_ℤ, ◌≤ℤ◌, true, false, Option, none, some, List, [], ◌∷◌, filter,
  ◌≡◌, refl, ap, ◌∙◌, arith, int_laws, IsAmount, eqb_ℤ_refl, add64_pos, leb_ℤ→le, leb_ℤ→lt,
  sub64_amounts, ==_refl, perm-singleton, Bool-cases, inl, inr,
}
use metery.Time.{Time, before, equal}
use metery.Ledger.Types.{Grant, ActiveGrant, BalanceResult, Period, Snapshot, FetchUsage}
use metery.Ledger.Deduct.{Sorter, burn, deduct, add_remaining}
use metery.Ledger.Deduct.Credits.{AllAmounts, left, credits, deduct-amounts}
use metery.Ledger.Balance.{
  live_at, activate, seed_grants, from_period, add_grants, roll_over, capture, Run, run_period,
  run_periods, start_run, conclude, balance_over,
}

-- One grant over two periods, effective from before the first one ends and live throughout, whose
-- credits are all used up in the first period.
pub record IsUsedUp (t : Time) (g : Grant) (fetch_usage : FetchUsage) (p q : Period) : Type 0 where
  pub adjacent : q.start ≡ p.end
  pub apart : equal p.start q.start ≡ false
  pub effective : before g.effective_at p.start ≡ false
  pub in_first : before g.effective_at p.end ≡ true
  pub live_first : live_at p.start g.expires_at ≡ true
  pub live_second : live_at p.end g.expires_at ≡ true
  pub live_now : live_at t g.expires_at ≡ true
  pub amount : IsAmount g.amount
  pub first_usage : IsAmount (fetch_usage p.start p.end)
  pub second_usage : IsAmount (fetch_usage q.start t)
  pub used_up : g.amount ≤ℤ fetch_usage p.start p.end

grants_set : IsSet (List ActiveGrant)
grants_set = hlevel (ℕ_set, IsScalar-prop)

module _ (sorter : Sorter) where
  sort-nil : sorter.sort [] ≡ []
  sort-nil = Perm.eq-nil (sorter.sort-perm [])

  sort-singleton : (g : ActiveGrant) → sorter.sort (g ∷ []) ≡ g ∷ []
  sort-singleton g = perm-singleton grants_set (sorter.sort-perm (g ∷ []))

roll_over-spent :
    (end : Time) (gs : List ActiveGrant) → AllAmounts gs → credits gs ≡ 0 → roll_over end gs ≡ []
unfolding roll_over
roll_over-spent end [] h z = refl
roll_over-spent end (g ∷ gs) h z =
    let zero : eqb_ℤ g.remaining (pos 0) ≡ true = is_zero g.remaining h.0 (omega arith) in
    rw zero (roll_over-spent end gs h.1 (omega arith))
  where
    is_zero : (r : ℤ) → IsAmount r → pos_part r ≡ 0 → eqb_ℤ r (pos 0) ≡ true
    is_zero r h e = ground arith

burn-remaining :
    (u : ℤ) (g : ActiveGrant)
    → IsAmount u
    → IsAmount g.remaining
    → (burn u g).1 ≡ record g { remaining = pos (left g - pos_part u) }
unfolding burn
burn-remaining u g hu hg = elim (Bool-cases (leb_ℤ u g.remaining)) [
  | inl e ↦ rw (e, sub64_amounts g.remaining u hg hu (leb_ℤ→le u g.remaining e))
  | inr e ↦
      let none_left : left g - pos_part u ≡ 0 = omega (arith, leb_ℤ→lt u g.remaining e) in
      rw (e, none_left)
]

-- One grant with its usage taken off.
deduct-singleton :
    (u : ℤ) (g : ActiveGrant)
    → IsAmount u
    → IsAmount g.remaining
    → (deduct u (g ∷ [])).1 ≡ record g { remaining = pos (left g - pos_part u) } ∷ []
unfolding deduct
deduct-singleton u g hu hg = elim (Bool-cases (leb_ℤ u (pos 0))) [
  | inl e ↦
      let same : g.remaining ≡ pos (left g - pos_part u) = omega (int_laws, leb_ℤ→le u (pos 0) e) in
      rw e (ap (λ (r : ℤ). record g { remaining = r } ∷ []) same)
  | inr e ↦ rw (e, burn-remaining u g hu hg)
]

module _ (sorter : Sorter) (t : Time) (g : Grant) (fetch_usage : FetchUsage) (p q : Period)
    (h : IsUsedUp t g fetch_usage p q) where
  abbrev over : Option Snapshot → BalanceResult × List Snapshot
  over seed = balance_over sorter t (g ∷ []) fetch_usage seed (p ∷ q ∷ [])

  nothing_left : roll_over p.end (deduct (fetch_usage p.start p.end) (activate g ∷ [])).1 ≡ []
  nothing_left =
      let (_, amounts, _, kept) =
        deduct-amounts (fetch_usage p.start p.end) (activate g ∷ []) h.first_usage (h.amount, tt) in
      roll_over-spent p.end _ amounts (omega (arith, kept, h.used_up, h.amount, h.first_usage))

  abbrev run1 : Run
  run1 =
      run_period sorter t (g ∷ []) fetch_usage true false p
        (record { active = []; seeded = []; usage = pos 0; overage = pos 0; snapshots = [] })

  run1_active : run1.active ≡ []
  unfolding run_period add_grants
  run1_active =
      rw (h.effective, h.in_first, h.live_first, sort-singleton sorter (activate g)) nothing_left

  run1_seeded : run1.seeded ≡ g.id ∷ []
  unfolding run_period add_grants
  run1_seeded = rw (h.effective, h.in_first)

  run1_snapshots : run1.snapshots ≡ capture p.end [] ∷ []
  unfolding run_period add_grants
  run1_snapshots =
      rw (h.effective, h.in_first, h.live_first, sort-singleton sorter (activate g))
        (ap (λ l. capture p.end l ∷ []) nothing_left)

  abbrev run2 : Run
  run2 = run_period sorter t (g ∷ []) fetch_usage false true q run1

  run2_active : run2.active ≡ []
  unfolding run_period add_grants deduct
  run2_active = rw (run1_active, run1_seeded, ==_refl g.id, sort-nil sorter)

  run2_snapshots : run2.snapshots ≡ capture p.end [] ∷ []
  unfolding run_period
  run2_snapshots = run1_snapshots

  -- From scratch: nothing is left of the grant, and the first period's end gives an empty snapshot.
  fresh : ((over none).0.balance ≡ pos 0) × ((over none).1 ≡ capture p.end [] ∷ [])
  unfolding balance_over start_run conclude run_periods add_remaining
  fresh = (rw run2_active, run2_snapshots)

  abbrev snapshot : Snapshot
  snapshot = capture p.end []

  abbrev reseeded : Run
  reseeded =
      run_period sorter t (g ∷ []) fetch_usage true true q
        (record { active = []; seeded = []; usage = pos 0; overage = pos 0; snapshots = [] })

  second_in_period : before g.effective_at q.start ≡ true
  second_in_period = rw h.adjacent h.in_first

  reseeded_active :
      reseeded.active
      ≡ record (activate g) {
        remaining = pos (pos_part g.amount - pos_part (fetch_usage q.start t));
      }
        ∷ []
  unfolding run_period add_grants
  reseeded_active =
      let live : live_at q.start g.expires_at ≡ true = rw h.adjacent h.live_second in
      rw (second_in_period, live, sort-singleton sorter (activate g))
        (deduct-singleton (fetch_usage q.start t) (activate g) h.second_usage h.amount)

  starts_second : from_period p.end (p ∷ q ∷ []) ≡ some (q ∷ [])
  unfolding from_period
  starts_second =
      let apart : equal p.start p.end ≡ false = rw (← h.adjacent) h.apart in
      rw (apart, h.adjacent, eqb_ℤ_refl p.end)

  over-snapshot :
      (over (some snapshot)).0.balance
      ≡ add_remaining (pos 0) (filter (λ ag. live_at t ag.expires_at) reseeded.active)
  unfolding balance_over start_run conclude run_periods capture seed_grants
  over-snapshot = rw (starts_second, start_run)

  -- From the snapshot that this leaves, the grant counts whole in the second period.
  cached :
      (over (some snapshot)).0.balance ≡ pos (pos_part g.amount - pos_part (fetch_usage q.start t))
  unfolding add_remaining
  cached =
      over-snapshot
      ∙ rw (reseeded_active, h.live_now)
          (add64_pos 0 (pos_part g.amount - pos_part (fetch_usage q.start t))
              (omega (arith, h.amount))
            ∙ omega int_laws)

-- For one grant and two adjacent periods of nonzero length of which the second is the current
-- one, where the grant is effective from within the first period, unexpired at both starts and at
-- t, its amount and both usages are from 0 up to 2^63 - 1, and the first usage is at least the
-- amount: computed without a seed the balance is 0 and the one snapshot, at the first period's
-- end, is empty, while computed from that snapshot as the seed the balance is max(0, amount -
-- second usage), so the used-up grant counts whole again.
pub used_up_comes_back :
    (sorter : Sorter) (t : Time) (g : Grant) (fetch_usage : FetchUsage) (p q : Period)
    → IsUsedUp t g fetch_usage p q
    → let fresh = balance_over sorter t (g ∷ []) fetch_usage none (p ∷ q ∷ []) in
      let s = capture p.end [] in
      let cached = balance_over sorter t (g ∷ []) fetch_usage (some s) (p ∷ q ∷ []) in
      (fresh.1 ≡ s ∷ [])
      × (fresh.0.balance ≡ pos 0)
      × (cached.0.balance ≡ pos (pos_part g.amount - pos_part (fetch_usage q.start t)))
used_up_comes_back sorter t g fetch_usage p q h =
    let (empty, taken) = fresh sorter t g fetch_usage p q h in
    (taken, empty, cached sorter t g fetch_usage p q h)
