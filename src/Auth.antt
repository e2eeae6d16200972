-- ===== src/Auth.antt =====
-- internal/auth/: who may call the API, and who may see the console.
pub mod Session
pub mod Middleware
pub mod OAuth
pub mod Kept
mod Tests
