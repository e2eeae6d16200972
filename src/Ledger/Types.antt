-- ===== src/Ledger/Types.antt =====
-- The data of internal/ledger/ledger.go.
use metery.Prelude.{ℤ, Bool, String, Option, List}
use metery.Time.{Time}

-- `rollover_max` is the cap at a period's end; none carries the unused balance over whole.
pub record Grant : Type 0 where
  pub id : String
  pub amount : ℤ
  pub priority : ℤ
  pub effective_at : Time
  pub expires_at : Option Time
  pub rollover_max : Option ℤ

pub record Entitlement : Type 0 where
  pub id : String
  pub usage_period_duration : Option String
  pub usage_period_anchor : Option Time
  pub created_at : Time

-- The instants from `start` (Go's `From`) up to `end` (`To`), the latter excluded.
pub record Period : Type 0 where
  pub start : Time
  pub end : Time

pub record BalanceResult : Type 0 where
  pub has_access : Bool
  pub balance : ℤ
  pub usage : ℤ
  pub overage : ℤ
  pub period : Option Period
  pub last_reset : Option Time

-- A grant with what is left of it.
pub record ActiveGrant : Type 0 where
  pub grant : Grant
  pub open grant use *
  pub remaining : ℤ

pub record GrantState : Type 0 where
  pub grant_id : String
  pub remaining : ℤ

-- The ledger at a period boundary.
pub record Snapshot : Type 0 where
  pub as_of : Time
  pub balance : ℤ
  pub per_grant_state : List GrantState

-- `FetchUsageFn`: the usage between two instants.
abbrev pub FetchUsage : Type 0
FetchUsage = Time → Time → ℤ
