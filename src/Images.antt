-- ===== src/Images.antt =====
-- internal/service/image and api/handlers/image: looking up, removing, tagging, pulling and pushing.
pub mod Backend
pub mod Reference
pub mod Auth
pub mod Service
pub mod Removal
pub mod Transfer
pub mod Handlers
mod Tests
