-- ===== src/System.antt =====
-- internal/service/system/auth.go and api/handlers/system/auth.go: logging in to a registry.
pub mod Login
pub mod Bounded
pub mod Handler
mod Tests
