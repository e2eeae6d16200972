-- ===== src/Store.antt =====
-- internal/store/store.go: the tables and the operations on them.
pub mod Rows
pub mod Table
pub mod Db
pub mod Constraints
pub mod Entitlements
pub mod Catalog
pub mod Usage
pub mod Snapshots
pub mod Listings
pub mod Plans
pub mod Subscriptions
pub mod Reads
pub mod Writes
pub mod Valid
pub mod Keys
pub mod History
mod Tests
