-- ===== src/Distribution.antt =====
-- internal/service/distribution and api/handlers/distribution: what a registry has of an image.
pub mod Canonical
pub mod Service
pub mod Verified
pub mod Handler
mod Tests
