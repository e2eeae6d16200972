-- ===== src/Service/Kept.antt =====
-- The handlers of internal/service/ against a relation that the writes of the store keep.
pub mod Catalog
pub mod Entitlements
pub mod Subscriptions
