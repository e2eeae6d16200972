-- ===== src/Ledger/Periods/Cover.antt =====
-- What `buildPeriods` returns: periods without a gap, each one shift long, the last with t in it.
use metery.Prelude.{
  ℕ, zero, suc, pos, negsuc, ◌≤ℤ◌, ◌<ℤ◌, some, List, [], ◌∷◌, ◌≡◌, refl, sym, subst, inl, inr,
  arith, Bool-cases, ltb_ℤ→lt, ltb_ℤ→le, Option-cases, none≢some, some_inj,
}
use metery.Time.{Time, after}
use metery.Duration.{Duration}
use metery.Ledger.Types.{Period}
use metery.Ledger.Shift.{shift_time}
use metery.Ledger.Periods.{step_back, step_forward, build_periods}

-- Periods that follow each other from `c` on, each one shift long. All but the last end by t, and
-- the last ends after it.
abbrev pub Tiles : Duration → Time → Time → List Period → Type 0
Tiles d t c [] = ⊥
Tiles d t c (p ∷ []) = (p.start ≡ c) × (p.end ≡ shift_time c d (pos 1)) × (t <ℤ p.end)
Tiles d t c (p ∷ q ∷ ps) =
    (p.start ≡ c) × (p.end ≡ shift_time c d (pos 1)) × (p.end ≤ℤ t) × Tiles d t p.end (q ∷ ps)

-- The last period, which the source reads as `periods[len(periods)-1]`.
abbrev pub last_period : Period → List Period → Period
last_period p [] = p
last_period p (q ∷ ps) = last_period q ps

module _ (d : Duration) (t : Time) where
  Tiles-cons :
      (c : Time) (ps : List Period)
      → let next = shift_time c d (pos 1) in
        next ≤ℤ t → Tiles d t next ps → Tiles d t c (record { start = c; end = next } ∷ ps)
  Tiles-cons c [] h w = absurd w
  Tiles-cons c (q ∷ ps) h w = (refl, refl, h, w)

  step_forward-Tiles :
      (n : ℕ) (c : Time) (ps : List Period) → step_forward d t n c ≡ some ps → Tiles d t c ps
  unfolding step_forward
  step_forward-Tiles zero c ps e = absurd (cc)
  step_forward-Tiles (suc n) c ps e = elim (Bool-cases (after (shift_time c d (pos 1)) t)) [
    | inl done ↦
        subst (Tiles d t c) (some_inj (rw done at e))
          (refl, refl, ltb_ℤ→lt t (shift_time c d (pos 1)) done)
    | inr more ↦ elim (Option-cases (step_forward d t n (shift_time c d (pos 1)))) [
      | inl r ↦ absurd (none≢some (rw (more, r) at e))
      | inr (qs, r) ↦ subst (Tiles d t c) (some_inj (rw (more, r) at e)) (
          Tiles-cons c qs (ltb_ℤ→le t (shift_time c d (pos 1)) more)
            (step_forward-Tiles n (shift_time c d (pos 1)) qs r))
    ]
  ]

  step_back_stop : (n : ℕ) (c r : Time) → step_back d t n c ≡ some r → (r ≤ℤ t) × (c ≤ℤ t → r ≡ c)
  unfolding step_back
  step_back_stop zero c r e = absurd (none≢some e)
  step_back_stop (suc n) c r e = elim (Bool-cases (after c t)) [
    | inl late ↦ (
      (step_back_stop n (shift_time c d (negsuc 0)) r (rw late at e)).0,
      λ h. absurd (omega (arith, ltb_ℤ→lt t c late)),
    )
    | inr here ↦
        let same : c ≡ r = some_inj (rw here at e) in
        (subst (λ u. u ≤ℤ t) same (ltb_ℤ→le t c here), λ h. sym same)
  ]

  -- The periods begin at the anchor, or before t if the anchor is after t, and cover t.
  pub build_periods-Tiles :
      (fuel : ℕ) (anchor : Time) (ps : List Period)
      → build_periods d t fuel anchor ≡ some ps
      → (c : Time) × (c ≤ℤ t) × (anchor ≤ℤ t → c ≡ anchor) × Tiles d t c ps
  unfolding build_periods
  build_periods-Tiles fuel anchor ps e = elim (Option-cases (step_back d t fuel anchor)) [
    | inl r ↦ absurd (none≢some (rw (r, build_periods) at e))
    | inr (c, r) ↦
        let (below, fixed) = step_back_stop fuel anchor c r in
        (c, below, fixed, step_forward-Tiles fuel c ps (rw (r, build_periods) at e))
  ]

  -- Such periods are not empty, and the last one holds t.
  pub Tiles-last :
      (c : Time) (p : Period) (ps : List Period)
      → c ≤ℤ t
      → Tiles d t c (p ∷ ps)
      → ((last_period p ps).start ≤ℤ t) × (t <ℤ (last_period p ps).end)
  Tiles-last c p [] h w = (rw w.0 h, w.2)
  Tiles-last c p (q ∷ ps) h w = Tiles-last p.end q ps w.2 w.3
