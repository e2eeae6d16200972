-- ===== src/Ledger/Balance/Agreement.antt =====
-- Runs of the loop of `CalculateBalance` over the same periods, from alike starts.
use mathlib.Core.List.{append-nil, append_assoc}
use metery.Prelude.{
  ℤ, Bool, true, false, List, [], ◌∷◌, ◌++◌, filter, if◌then◌else◌, ◌≡◌, ◌⊎◌, refl, sym, ap, subst,
  ◌∙◌, inr,
}
use metery.Time.{Time, before}
use metery.Ledger.Types.{Grant, ActiveGrant, BalanceResult, Period, Snapshot, FetchUsage}
use metery.Ledger.Deduct.{Sorter, deduct}
use metery.Ledger.Balance.{
  live_at, add_grants, roll_over, capture, Run, run_period, run_periods, conclude,
}
use metery.Ledger.Balance.Seeding.{Covers, SameSeeds, add_grants-agree, add_grants-Covers}

-- Period after period.
abbrev pub Adjacent : List Period → Type 0
Adjacent [] = Unit
Adjacent (p ∷ []) = Unit
Adjacent (p ∷ q ∷ ps) = (q.start ≡ p.end) × Adjacent (q ∷ ps)

module _ (sorter : Sorter) (t : Time) (grants : List Grant) (fetch_usage : FetchUsage) where
  -- Two runs that go on in the same way, of which the first took snapshots before.
  pub record Agrees (before : List Snapshot) (r r' : Run) : Type 0 where
    pub active : r.active ≡ r'.active
    pub seeded : SameSeeds r.seeded r'.seeded
    pub snapshots : r.snapshots ≡ before ++ r'.snapshots

  -- What a round makes of the grants that are active in it.
  abbrev settle : Bool → Period → List ActiveGrant → Run
  settle current p added =
      let sorted = sorter.sort (filter (λ ag. live_at p.start ag.expires_at) added) in
      let usage = fetch_usage p.start (if current then t else p.end) in
      let (rest, burnt) = deduct usage sorted in
      let rolled = roll_over p.end burnt in
      record {
        active = if current then burnt else rolled;
        seeded = [];
        usage = usage;
        overage = rest;
        snapshots = if current then [] else capture p.end rolled ∷ [];
      }

  run_period-settle :
      (f current : Bool) (p : Period) (r : Run)
      → let a = add_grants f p grants (r.active, r.seeded) in
        let s = settle current p a.0 in
        run_period sorter t grants fetch_usage f current p r
        ≡ record s { seeded = a.1; snapshots = r.snapshots ++ s.snapshots }
  unfolding run_period
  run_period-settle f true p r =
      ap
        (λ l. record (settle true p (add_grants f p grants (r.active, r.seeded)).0) {
          seeded = (add_grants f p grants (r.active, r.seeded)).1;
          snapshots = l;
        })
        (sym (append-nil r.snapshots))
  run_period-settle f false p r = refl

  -- What agrees before a round agrees after it, where the rounds may differ in being the first.
  module _ (f f' current : Bool) (p : Period) (before : List Snapshot) (r r' : Run)
      (c : Covers p.start grants r.seeded) (h : Agrees before r r') where
    same_grants :
        let a = add_grants f p grants (r.active, r.seeded) in
        let a' = add_grants f' p grants (r'.active, r'.seeded) in (a.0 ≡ a'.0) × SameSeeds a.1 a'.1
    same_grants =
        subst
          (λ active.
            let a = add_grants f p grants (r.active, r.seeded) in
            let a' = add_grants f' p grants (active, r'.seeded) in
            (a.0 ≡ a'.0) × SameSeeds a.1 a'.1)
          h.active (add_grants-agree f f' p grants r.active r.seeded r'.seeded c h.seeded)

    abbrev next : Run
    next = run_period sorter t grants fetch_usage f current p r

    abbrev next' : Run
    next' = run_period sorter t grants fetch_usage f' current p r'

    run_period-Agrees : Agrees before next next'
    unfolding run_period
    run_period-Agrees =
        let a = add_grants f p grants (r.active, r.seeded) in
        let taken = (settle current p a.0).snapshots in
        record {
          active = ap (λ l. (settle current p l).active) same_grants.0;
          seeded = same_grants.1;
          snapshots =
              ap (λ x. x.snapshots) (run_period-settle f current p r)
              ∙ ap (λ l. l ++ taken) h.snapshots
              ∙ append_assoc before r'.snapshots taken
              ∙ ap (λ l. before ++ (r'.snapshots ++ (settle current p l).snapshots)) same_grants.0
              ∙ sym (ap (λ x. before ++ x.snapshots) (run_period-settle f' current p r'));
        }

    same_usage : next.usage ≡ next'.usage
    unfolding run_period
    same_usage = refl

    same_overage : next.overage ≡ next'.overage
    unfolding run_period
    same_overage = ap (λ l. (settle current p l).overage) same_grants.0

  pub run_period-Covers :
      (f current : Bool) (p : Period) (r : Run)
      → (f ≡ true) ⊎ Covers p.start grants r.seeded
      → Covers p.end grants (run_period sorter t grants fetch_usage f current p r).seeded
  unfolding run_period
  run_period-Covers f current p r c = add_grants-Covers f p grants r.active r.seeded c

  -- The runs answer alike: with the same usage and overage of the last period.
  pub record Concludes (before : List Snapshot) (r r' : Run) : Type 0 where
    pub agrees : Agrees before r r'
    pub usage : r.usage ≡ r'.usage
    pub overage : r.overage ≡ r'.overage

  pub run_periods-Concludes :
      (f f' : Bool) (p : Period) (ps : List Period) (before : List Snapshot) (r r' : Run)
      → Adjacent (p ∷ ps)
      → Covers p.start grants r.seeded
      → Agrees before r r'
      → Concludes before
          (run_periods sorter t grants fetch_usage f (p ∷ ps) r)
          (run_periods sorter t grants fetch_usage f' (p ∷ ps) r')
  unfolding run_periods
  run_periods-Concludes f f' p [] before r r' adjacent c h = record {
    agrees = run_period-Agrees f f' true p before r r' c h;
    usage = same_usage f f' true p before r r' c h;
    overage = same_overage f f' true p before r r' c h;
  }
  run_periods-Concludes f f' p (q ∷ ps) before r r' adjacent c h =
      let next = run_period sorter t grants fetch_usage f false p r in
      run_periods-Concludes false false q ps before next _ adjacent.1
        (subst (λ x. Covers x grants next.seeded) (sym adjacent.0)
          (run_period-Covers f false p r (inr c)))
        (run_period-Agrees f f' false p before r r' c h)

  pub conclude-agree :
      (periods : List Period) (before : List Snapshot) (r r' : Run)
      → Concludes before r r'
      → let a = conclude sorter t grants fetch_usage periods r in
        let a' = conclude sorter t grants fetch_usage periods r' in
        (a.0 ≡ a'.0) × (a.1 ≡ before ++ a'.1)
  unfolding conclude
  conclude-agree periods before r r' h =
      let answer : List ActiveGrant → ℤ → ℤ → BalanceResult = λ active usage overage.
        (conclude sorter t grants fetch_usage periods
          (record r' { active = active; usage = usage; overage = overage })).0 in
      (
        ap (λ active. answer active r.usage r.overage) h.agrees.active
            ∙ ap (λ usage. answer r'.active usage r.overage) h.usage
            ∙ ap (λ overage. answer r'.active r'.usage overage) h.overage,
        h.agrees.snapshots,
      )
