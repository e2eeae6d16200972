-- ===== src/Ledger/Balance/Rollover.antt =====
-- What survives the end of a period, and the snapshots that the loop takes there.
use metery.Prelude.{
  ℕ, ◌-◌, ◌∙◌, ℤ, pos, pos_part, ltb_ℤ, eqb_ℤ, true, false, Option, none, some, List, [], ◌∷◌,
  if◌then◌else◌, ◌≡◌, refl, arith, All, sum_of, Bool-cases, inl, inr,
}
use metery.Time.{Time}
use metery.Ledger.Types.{ActiveGrant}
use metery.Ledger.Deduct.Credits.{AllAmounts, credits}
use metery.Ledger.Balance.{live_at, cap_remaining, roll_over}

-- A number of credits within a cap, if there is one: `n - (n - m)` is the smaller of the two.
abbrev pub within : Option ℤ → ℕ → ℕ
within none n = n
within (some max) n = n - (n - pos_part max)

-- The credits of one grant that survive: none if its expiry is not after the end of the period,
-- and otherwise what is left of it, within the cap.
abbrev pub surviving_until : Time → Option Time → Option ℤ → ℤ → ℕ
surviving_until end none max r = within max (pos_part r)
surviving_until end (some expiry) max r = if ltb_ℤ end expiry then within max (pos_part r) else 0

abbrev pub surviving : Time → ActiveGrant → ℕ
surviving end ag = surviving_until end ag.expires_at ag.rollover_max ag.remaining

within-cap_remaining :
    (max : Option ℤ) (r : ℤ) → within max (pos_part r) ≡ pos_part (cap_remaining max r)
within-cap_remaining none r = refl
within-cap_remaining (some m) r = ground arith

surviving-live :
    (end : Time) (expires : Option Time) (max : Option ℤ) (r : ℤ)
    → live_at end expires ≡ true
    → surviving_until end expires max r ≡ pos_part (cap_remaining max r)
surviving-live end none max r h = within-cap_remaining max r
surviving-live end (some expiry) max r h = rw h (within-cap_remaining max r)

surviving-dead :
    (end : Time) (expires : Option Time) (max : Option ℤ) (r : ℤ)
    → live_at end expires ≡ false
    → surviving_until end expires max r ≡ 0
surviving-dead end none max r h = absurd (ground (arith, h))
surviving-dead end (some expiry) max r h = rw h refl

-- A grant that was carried over: something is left of it, within the cap, and it has not expired.
pub record IsCarried (end : Time) (ag : ActiveGrant) : Type 0 where
  pub positive : ltb_ℤ (pos 0) ag.remaining ≡ true
  pub capped : cap_remaining ag.rollover_max ag.remaining ≡ ag.remaining
  pub live : live_at end ag.expires_at ≡ true

cap_remaining_idem :
    (max : Option ℤ) (r : ℤ) → cap_remaining max (cap_remaining max r) ≡ cap_remaining max r
cap_remaining_idem none r = refl
cap_remaining_idem (some m) r = ground arith

cap_zero : (max : Option ℤ) (r : ℤ) → eqb_ℤ r (pos 0) ≡ true → pos_part (cap_remaining max r) ≡ 0
cap_zero none r e = ground arith
cap_zero (some m) r e = ground arith

spent : (end : Time) (g : ActiveGrant) → eqb_ℤ g.remaining (pos 0) ≡ true → surviving end g ≡ 0
spent end g e = elim (Bool-cases (live_at end g.expires_at)) [
  | inl l ↦
      surviving-live end g.expires_at g.rollover_max g.remaining l
      ∙ cap_zero g.rollover_max g.remaining e
  | inr d ↦ surviving-dead end g.expires_at g.rollover_max g.remaining d
]

not_positive : (r : ℤ) → ltb_ℤ (pos 0) r ≡ false → pos_part r ≡ 0
not_positive r e = ground arith

-- Every grant behind the end of a period was carried over.
pub roll_over-IsCarried :
    (end : Time) (gs : List ActiveGrant) → All (IsCarried end) (roll_over end gs)
unfolding roll_over
roll_over-IsCarried end [] = tt
roll_over-IsCarried end (g ∷ gs) =
    let carried = roll_over-IsCarried end gs in
    elim (Bool-cases (eqb_ℤ g.remaining (pos 0))) [
      | inl zero ↦ rw zero carried
      | inr some_left ↦ elim (Bool-cases (live_at end g.expires_at)) [
        | inr dead ↦ rw (some_left, dead) carried
        | inl live ↦ elim (Bool-cases (ltb_ℤ (pos 0) (cap_remaining g.rollover_max g.remaining))) [
          | inl positive ↦
              rw (some_left, live, positive)
                (
                  record {
                    positive = positive;
                    capped = cap_remaining_idem g.rollover_max g.remaining;
                    live = live;
                  },
                  carried,
                )
          | inr nothing ↦ rw (some_left, live, nothing) carried
        ]
      ]
    ]

-- For active grants with remaining amounts from 0 up to 2^63 - 1, the credits that the end of a
-- period leaves are the sum over the grants of what each keeps: nothing if it has expired by that
-- end, and otherwise what remains of it, cut to its rollover cap if it has one (to nothing if the
-- cap is negative).
pub roll_over-surviving :
    (end : Time) (gs : List ActiveGrant)
    → AllAmounts gs
    → credits (roll_over end gs) ≡ sum_of (surviving end) gs
unfolding roll_over
roll_over-surviving end [] h = refl
roll_over-surviving end (g ∷ gs) h =
    let sum = roll_over-surviving end gs h.1 in
    let kept = cap_remaining g.rollover_max g.remaining in
    elim (Bool-cases (eqb_ℤ g.remaining (pos 0))) [
      | inl zero ↦ rw zero (omega (arith, sum, spent end g zero))
      | inr some_left ↦ elim (Bool-cases (live_at end g.expires_at)) [
        | inr dead ↦
            let none_left = surviving-dead end g.expires_at g.rollover_max g.remaining dead in
            rw (some_left, dead) (omega (arith, sum, none_left))
        | inl live ↦
            let cut = surviving-live end g.expires_at g.rollover_max g.remaining live in
            elim (Bool-cases (ltb_ℤ (pos 0) kept)) [
              | inl positive ↦ rw (some_left, live, positive) (omega (arith, sum, cut))
              | inr nothing ↦
                  rw (some_left, live, nothing) (omega (arith, sum, cut, not_positive kept nothing))
            ]
      ]
    ]
