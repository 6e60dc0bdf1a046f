-- ===== src/Volumes.antt =====
-- internal/service/volume and api/handlers/volume.
pub mod Service
pub mod Handlers
pub mod Laws
mod Tests
