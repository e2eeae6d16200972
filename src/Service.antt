-- ===== src/Service.antt =====
-- internal/service/: the handlers of the API over the store.
pub mod Rpc
pub mod Subscriptions
pub mod Entitlements
pub mod Grants
pub mod Customers
pub mod Features
pub mod Plans
pub mod Kept
mod Tests
