-- ===== src/Ledger/Deduct.antt =====
-- The parts that both balance computations of internal/ledger/ledger.go share: the order of the
-- active grants, the deduction of usage, and the sum of what is left.
pub mod Credits
pub mod Order
pub mod Insertion
use metery.Prelude.{
  ℤ, pos, leb_ℤ, ltb_ℤ, eqb_ℤ, add64, sub64, Bool, not, false, List, [], ◌∷◌, if◌then◌else◌, ◌≡◌,
  Perm,
}
use mathlib.Core.List.{Pairwise}
use metery.Time.{before}
use metery.Ledger.Types.{ActiveGrant}

-- The comparison that both calls of `sort.Slice` are given: lower priority numbers first, and
-- earlier grants first among equals.
unfoldable pub less : ActiveGrant → ActiveGrant → Bool
less a b =
    if not (eqb_ℤ a.priority b.priority)
    then ltb_ℤ a.priority b.priority
    else before a.effective_at b.effective_at

-- No entry is less than one that stands before it.
abbrev pub IsOrdered : List ActiveGrant → Type 0
IsOrdered = Pairwise (λ a b. less b a ≡ false)

-- `sort.Slice` with `less`: an ordered rearrangement. The package promises no more; where two
-- grants tie, their order is open.
pub record Sorter : Type 0 where
  pub sort : List ActiveGrant → List ActiveGrant
  pub sort-perm : (gs : List ActiveGrant) → Perm (sort gs) gs
  pub sort-IsOrdered : (gs : List ActiveGrant) → IsOrdered (sort gs)

-- One round of the deduction loop: the usage that is left, and the grant.
unfoldable pub burn : ℤ → ActiveGrant → ℤ × ActiveGrant
burn usage ag =
    if leb_ℤ usage ag.remaining
    then (pos 0, record ag { remaining = sub64 ag.remaining usage })
    else (sub64 usage ag.remaining, record ag { remaining = pos 0 })

-- The deduction loop: it breaks when no usage is left.
unfoldable pub deduct : ℤ → List ActiveGrant → ℤ × List ActiveGrant
unfolding burn
deduct usage [] = (usage, [])
deduct usage (ag ∷ ags) =
    let (left, ag') = burn usage ag in
    let rest = deduct left ags in
    if leb_ℤ usage (pos 0) then (usage, ag ∷ ags) else (rest.0, ag' ∷ rest.1)

-- `totalBalance += ag.Remaining` over the grants, from a running total.
unfoldable pub add_remaining : ℤ → List ActiveGrant → ℤ
add_remaining total [] = total
add_remaining total (ag ∷ ags) = add_remaining (add64 total ag.remaining) ags
