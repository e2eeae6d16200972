-- ===== src/Ledger/Balance/Cached.antt =====
-- The computation from a snapshot against the one from scratch, where no grant was used up.
use mathlib.Core.List.{append-nil}
use metery.Prelude.{
  pos, Bool, true, false, Option, none, some, List, [], ◌∷◌, ◌++◌, ◌≡◌, ◌⊎◌, refl, sym, ap, subst,
  ◌∙◌, inl, inr,
}
use metery.Time.{Time}
use metery.Ledger.Types.{Grant, BalanceResult, Period, Snapshot, FetchUsage}
use metery.Ledger.Deduct.{Sorter}
use metery.Ledger.Balance.{
  from_period, capture, Run, run_period, run_periods, start_run, conclude, balance_over,
}
use metery.Ledger.Balance.Seeding.{Covers, SameSeeds, Known, ids_of, seed_grants-state_of}
use metery.Ledger.Balance.Agreement.{
  Adjacent, Agrees, run_period-Covers, run_periods-Concludes, conclude-agree,
}

module _ (sorter : Sorter) (t : Time) (grants : List Grant) (fetch_usage : FetchUsage) where
  -- The run after periods that are all closed.
  abbrev pub run_closed : Bool → List Period → Run → Run
  run_closed f [] r = r
  run_closed f (p ∷ ps) r = run_closed false ps (run_period sorter t grants fetch_usage f false p r)

  run_periods-append :
      (f : Bool) (p : Period) (ps : List Period) (q : Period) (qs : List Period) (r : Run)
      → run_periods sorter t grants fetch_usage f (p ∷ ps ++ q ∷ qs) r
        ≡ run_periods sorter t grants fetch_usage false (q ∷ qs) (run_closed f (p ∷ ps) r)
  unfolding run_periods
  run_periods-append f p [] q qs r = refl
  run_periods-append f p (p' ∷ ps) q qs r =
      run_periods-append false p' ps q qs (run_period sorter t grants fetch_usage f false p r)

  -- After closed periods up to an instant, what is effective before it is seeded, and the last
  -- snapshot is of that instant.
  record IsClosed (x : Time) (r : Run) : Type 0 where
    covered : Covers x grants r.seeded
    earlier : List Snapshot
    last : r.snapshots ≡ earlier ++ capture x r.active ∷ []

  run_closed-IsClosed :
      (f : Bool) (p : Period) (ps : List Period) (q : Period) (qs : List Period) (r : Run)
      → Adjacent (p ∷ ps ++ q ∷ qs)
      → (f ≡ true) ⊎ Covers p.start grants r.seeded
      → IsClosed q.start (run_closed f (p ∷ ps) r)
  unfolding run_period
  run_closed-IsClosed f p [] q qs r adjacent c =
      let next = run_period sorter t grants fetch_usage f false p r in
      record {
        covered =
            subst (λ x. Covers x grants next.seeded) (sym adjacent.0)
              (run_period-Covers sorter t grants fetch_usage f false p r c);
        earlier = r.snapshots;
        last = ap (λ x. r.snapshots ++ capture x next.active ∷ []) (sym adjacent.0);
      }
  run_closed-IsClosed f p (p' ∷ ps) q qs r adjacent c =
      let next = run_period sorter t grants fetch_usage f false p r in
      run_closed-IsClosed false p' ps q qs next adjacent.1 (
        inr (
          subst (λ x. Covers x grants next.seeded) (sym adjacent.0)
            (run_period-Covers sorter t grants fetch_usage f false p r c)))

  abbrev pub fresh_run : Run
  fresh_run = record { active = []; seeded = []; usage = pos 0; overage = pos 0; snapshots = [] }

  -- Each active grant is the one that the list has under its id, and the grants that have been
  -- added are just the active ones: none has been used up or has expired.
  pub record IsComplete (r : Run) : Type 0 where
    pub known : Known grants r.active
    pub kept : SameSeeds r.seeded (ids_of r.active)

module _ (sorter : Sorter) (t : Time) (grants : List Grant) (fetch_usage : FetchUsage) (p : Period)
    (ps : List Period) (q : Period) (qs : List Period) where
  -- The run over the closed periods, before the one that the snapshot starts.
  abbrev pub closed : Run
  closed =
      run_closed sorter t grants fetch_usage true (p ∷ ps) (fresh_run sorter t grants fetch_usage)

  abbrev pub over : Option Snapshot → BalanceResult × List Snapshot
  over seed = balance_over sorter t grants fetch_usage seed (p ∷ ps ++ q ∷ qs)

  -- For any sorter, t, grants, usage function and adjacent periods, one or more closed ones
  -- before the others, of which only the first of the others begins where it does: if after the
  -- closed periods each active grant is the one that the list has under its id and the grants
  -- that count as added are just the active ones (none has been used up, has expired or was
  -- capped to nothing), then the computation that starts at the snapshot of that boundary gives
  -- the same answer as the one from scratch, the latter takes the snapshots of the closed
  -- periods and then those that the former takes, and that snapshot is the last of the closed
  -- periods' ones.
  pub balance_over-capture :
      Adjacent (p ∷ ps ++ q ∷ qs)
      → from_period q.start (p ∷ ps ++ q ∷ qs) ≡ some (q ∷ qs)
      → IsComplete sorter t grants fetch_usage closed
      → let s = capture q.start closed.active in
        ((over none).0 ≡ (over (some s)).0)
        × ((over none).1 ≡ closed.snapshots ++ (over (some s)).1)
        × ((earlier : List Snapshot) × (closed.snapshots ≡ earlier ++ s ∷ []))
  unfolding balance_over start_run capture
  balance_over-capture adjacent start complete =
      let periods = p ∷ ps ++ q ∷ qs in
      let s = capture q.start closed.active in
      let fresh = fresh_run sorter t grants fetch_usage in
      let done =
        run_closed-IsClosed sorter t grants fetch_usage true p ps q qs fresh adjacent (inl refl) in
      let seeded : Run = record fresh { active = closed.active; seeded = ids_of closed.active } in
      let agrees : Agrees sorter t grants fetch_usage closed.snapshots closed seeded = record {
        active = refl;
        seeded = complete.kept;
        snapshots = sym (append-nil closed.snapshots);
      } in
      let rest =
        run_periods-Concludes sorter t grants fetch_usage false true q qs closed.snapshots closed
          seeded (adjacent_after p ps adjacent) done.covered agrees in
      let alike = conclude-agree sorter t grants fetch_usage periods closed.snapshots _ _ rest in
      let whole : over none
          ≡ conclude sorter t grants fetch_usage periods
              (run_periods sorter t grants fetch_usage false (q ∷ qs) closed) =
        ap (conclude sorter t grants fetch_usage periods)
          (run_periods-append sorter t grants fetch_usage true p ps q qs fresh) in
      let cached : over (some s)
          ≡ conclude sorter t grants fetch_usage periods
              (run_periods sorter t grants fetch_usage true (q ∷ qs) seeded) =
        rw (start, start_run, seed_grants-state_of grants closed.active complete.known) refl in
      (
        ap (λ x. x.0) whole ∙ alike.0 ∙ sym (ap (λ x. x.0) cached),
        ap (λ x. x.1) whole ∙ alike.1 ∙ sym (ap (λ x. closed.snapshots ++ x.1) cached),
        (done.earlier, done.last),
      )
    where
      adjacent_after :
          (p : Period) (ps : List Period) → Adjacent (p ∷ ps ++ q ∷ qs) → Adjacent (q ∷ qs)
      adjacent_after p [] h = h.1
      adjacent_after p (p' ∷ ps) h = adjacent_after p' ps h.1
