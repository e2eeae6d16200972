-- ===== src/Ledger.antt =====
-- internal/ledger/ledger.go: the balance of an entitlement.
pub mod Types
pub mod Shift
pub mod Periods
pub mod Deduct
pub mod Balance
mod Tests
