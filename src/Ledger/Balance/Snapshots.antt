-- ===== src/Ledger/Balance/Snapshots.antt =====
-- The snapshots that the loop over the periods takes.
use mathlib.Core.List.{append-nil, append_assoc, map-append}
use metery.Prelude.{
  ℤ, pos, ltb_ℤ, Bool, true, false, List, [], ◌∷◌, ◌++◌, map, ◌≡◌, refl, sym, ◌∙◌, All, add64,
}
use metery.Time.{Time}
use metery.Ledger.Types.{Grant, ActiveGrant, Period, Snapshot, GrantState, FetchUsage}
use metery.Ledger.Deduct.{Sorter, add_remaining}
use metery.Ledger.Balance.{roll_over, capture, state_of, Run, run_period, run_periods}
use metery.Ledger.Balance.Rollover.{IsCarried, roll_over-IsCarried}

-- The ends of all periods but the last.
abbrev pub boundaries : List Period → List Time
boundaries [] = []
boundaries (p ∷ []) = []
boundaries (p ∷ q ∷ ps) = p.end ∷ boundaries (q ∷ ps)

-- The sum of a snapshot's entries.
abbrev pub add_states : ℤ → List GrantState → ℤ
add_states total [] = total
add_states total (s ∷ ss) = add_states (add64 total s.remaining) ss

-- A snapshot lists only grants with something left, and its balance is their sum.
pub record IsSound (s : Snapshot) : Type 0 where
  pub balanced : s.balance ≡ add_states (pos 0) s.per_grant_state
  pub positive : All (λ g. ltb_ℤ (pos 0) g.remaining ≡ true) s.per_grant_state

add_states-state_of :
    (total : ℤ) (gs : List ActiveGrant)
    → add_remaining total gs ≡ add_states total (map state_of gs)
unfolding add_remaining
add_states-state_of total [] = refl
add_states-state_of total (g ∷ gs) = add_states-state_of (add64 total g.remaining) gs

positive_states :
    (end : Time) (gs : List ActiveGrant)
    → All (IsCarried end) gs
    → All (λ g. ltb_ℤ (pos 0) g.remaining ≡ true) (map state_of gs)
positive_states end [] h = tt
positive_states end (g ∷ gs) h = (h.0.positive, positive_states end gs h.1)

capture-IsSound : (end : Time) (gs : List ActiveGrant) → IsSound (capture end (roll_over end gs))
unfolding capture
capture-IsSound end gs = record {
  balanced = add_states-state_of (pos 0) (roll_over end gs);
  positive = positive_states end (roll_over end gs) (roll_over-IsCarried end gs);
}

All-append {ℓ κ} :
    {A : Type ℓ} (P : A → Type κ) (xs ys : List A) → All P xs → All P ys → All P (xs ++ ys)
All-append P [] ys hx hy = hy
All-append P (x ∷ xs) ys hx hy = (hx.0, All-append P xs ys hx.1 hy)

module _ (sorter : Sorter) (t : Time) (grants : List Grant) (fetch_usage : FetchUsage) where
  -- From a run whose snapshots are sound, the loop over the periods adds one snapshot for each
  -- period but the last, taken at its end and in order, and all snapshots are sound after it:
  -- the entries are positive, and their wrapping sum is the balance.
  pub run_periods-snapshots :
      (first : Bool) (ps : List Period) (r : Run)
      → All IsSound r.snapshots
      → let r' = run_periods sorter t grants fetch_usage first ps r in
        (map (λ s. s.as_of) r'.snapshots ≡ map (λ s. s.as_of) r.snapshots ++ boundaries ps)
        × All IsSound r'.snapshots
  unfolding run_periods run_period capture
  run_periods-snapshots first [] r h = (sym (append-nil _), h)
  run_periods-snapshots first (p ∷ []) r h = (sym (append-nil _), h)
  run_periods-snapshots first (p ∷ q ∷ ps) r h =
      let r1 = run_period sorter t grants fetch_usage first false p r in
      let (ends, sound) =
        run_periods-snapshots false (q ∷ ps) r1
          (All-append IsSound r.snapshots _ h (capture-IsSound _ _, tt)) in
      (ends ∙ simp (map-append, append_assoc), sound)
