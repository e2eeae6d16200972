-- ===== src/Ledger/Periods/Termination.antt =====
-- When the loops of `buildPeriods` end, and when they do not.
use metery.Prelude.{
  ℕ, zero, suc, ◌+◌, ◌≤◌, ◌<◌, pos, negsuc, pos_part, neg_part, ◌≤ℤ◌, Bool, true, false, not, none,
  some, List, [], ◌∷◌, ◌≡◌, refl, inl, inr, ◌-◌, arith, int_laws, Option-cases, none≢some, some_inj,
  Bool-cases, ltb_ℤ→lt, ltb_ℤ→le,
}
use metery.Time.{Time, after}
use metery.Duration.{Duration, IsForward}
use metery.Ledger.Types.{Period}
use metery.Ledger.Shift.{
  shift_time, IsZero, shift_time_forward, shift_time_backward, shift_time_zero,
}
use metery.Ledger.Periods.{step_back, step_forward, build_periods}

-- How far `a` lies after `b`, in nanoseconds; 0 if it does not.
abbrev pub ahead_by : Time → Time → ℕ
ahead_by a b = pos_part a + neg_part b - (pos_part b + neg_part a)

not-false : (b : Bool) → b ≡ false → not b ≡ true
not-false b h = ground arith

not-true : (b : Bool) → b ≡ true → not b ≡ false
not-true b h = ground arith

module _ (d : Duration) (t : Time) where
  -- More fuel does not change an answer.
  step_back_mono :
      (m n : ℕ) (c r : Time) → m ≤ n → step_back d t m c ≡ some r → step_back d t n c ≡ some r
  unfolding step_back
  step_back_mono zero n c r h e = cc
  step_back_mono (suc m) zero c r h e = elim h [ ]
  step_back_mono (suc m) (suc n) c r h e =
      ground (arith, step_back_mono m n (shift_time c d (negsuc 0)) r)

  step_forward_mono :
      (m n : ℕ) (c : Time) (ps : List Period)
      → m ≤ n
      → step_forward d t m c ≡ some ps
      → step_forward d t n c ≡ some ps
  unfolding step_forward
  step_forward_mono zero n c ps h e = cc
  step_forward_mono (suc m) zero c ps h e = elim h [ ]
  step_forward_mono (suc m) (suc n) c ps h e =
      elim (Bool-cases (after (shift_time c d (pos 1)) t)) [
        | inl done ↦ rw done (rw done at e)
        | inr more ↦ elim (Option-cases (step_forward d t m (shift_time c d (pos 1)))) [
          | inl r ↦ absurd (none≢some (rw (more, r) at e))
          | inr (qs, r) ↦
              rw (more, step_forward_mono m n (shift_time c d (pos 1)) qs (omega arith) r)
                (rw (more, r) at e)
        ]
      ]

  build_periods_lem :
      (n : ℕ) (anchor c : Time) (ps : List Period)
      → step_back d t n anchor ≡ some c
      → step_forward d t n c ≡ some ps
      → build_periods d t n anchor ≡ some ps
  unfolding build_periods
  build_periods_lem n anchor c ps back forward = rw (back, build_periods) forward

  module _ (f : IsForward d) where
    step_back_total :
        (n : ℕ) (c : Time) → ahead_by c t < n → (r : Time) × (step_back d t n c ≡ some r) × (r ≤ℤ t)
    unfolding step_back
    step_back_total zero c h = elim h [ ]
    step_back_total (suc n) c h = elim (Bool-cases (after c t)) [
      | inl e ↦ rw e (
          step_back_total n (shift_time c d (negsuc 0))
            (omega (int_laws, shift_time_backward d f c, ltb_ℤ→lt t c e)))
      | inr e ↦ (c, rw e, ltb_ℤ→le t c e)
    ]

    step_forward_total :
        (n : ℕ) (c : Time)
        → ahead_by t c < n
        → (ps : List Period) × (step_forward d t n c ≡ some ps)
    unfolding step_forward
    step_forward_total zero c h = elim h [ ]
    step_forward_total (suc n) c h = elim (Bool-cases (after (shift_time c d (pos 1)) t)) [
      | inl e ↦ (record { start = c; end = shift_time c d (pos 1) } ∷ [], rw e)
      | inr e ↦
          let (ps, r) =
            step_forward_total n (shift_time c d (pos 1))
              (omega (arith, shift_time_forward d f c, ltb_ℤ→le t (shift_time c d (pos 1)) e)) in
          (record { start = c; end = shift_time c d (pos 1) } ∷ ps, rw (e, r))
    ]

    -- Over a forward duration `buildPeriods` returns: from some bound on, fuel no longer matters.
    pub build_periods_total :
        (anchor : Time)
        → (bound : ℕ) × (ps : List Period) × ((fuel : ℕ)
            → bound ≤ fuel
            → build_periods d t fuel anchor ≡ some ps)
    build_periods_total anchor =
        let back_fuel : ℕ = suc (ahead_by anchor t) in
        let (c, back, below) = step_back_total back_fuel anchor (omega arith) in
        let forward_fuel : ℕ = suc (ahead_by t c) in
        let (ps, forward) = step_forward_total forward_fuel c (omega arith) in
        (
          back_fuel + forward_fuel,
          ps,
          λ fuel h.
              build_periods_lem fuel anchor c ps
                (step_back_mono back_fuel fuel anchor c (omega arith) back)
                (step_forward_mono forward_fuel fuel c ps (omega arith) forward),
        )

  module _ (z : IsZero d) where
    step_back_stuck : (n : ℕ) (c : Time) → after c t ≡ true → step_back d t n c ≡ none
    unfolding step_back
    step_back_stuck zero c e = refl
    step_back_stuck (suc n) c e = rw (e, shift_time_zero d z c) (step_back_stuck n c e)

    step_forward_stuck : (n : ℕ) (c : Time) → after c t ≡ false → step_forward d t n c ≡ none
    unfolding step_forward
    step_forward_stuck zero c e = refl
    step_forward_stuck (suc n) c e = rw (shift_time_zero d z c, e, step_forward_stuck n c e)

    step_back_below : (n : ℕ) (c r : Time) → step_back d t n c ≡ some r → after r t ≡ false
    unfolding step_back
    step_back_below zero c r e = cc
    step_back_below (suc n) c r e = elim (Bool-cases (after c t)) [
      | inl late ↦ step_back_below n (shift_time c d (negsuc 0)) r (rw late at e)
      | inr here ↦ rw (← some_inj (rw here at e)) here
    ]

    -- Over a zero duration `buildPeriods` never returns, whatever the anchor.
    pub build_periods_diverges : (fuel : ℕ) (anchor : Time) → build_periods d t fuel anchor ≡ none
    unfolding build_periods
    build_periods_diverges fuel anchor = elim (Option-cases (step_back d t fuel anchor)) [
      | inl e ↦ rw (e, build_periods)
      | inr (r, e) ↦
          rw (e, build_periods) (step_forward_stuck fuel r (step_back_below fuel anchor r e))
    ]
