-- ===== src/Builder.antt =====
-- Image builds: the handler (api/handlers/builder) and the service (internal/service/builder).
pub mod Options
pub mod Service
pub mod Handler
pub mod Lifetime
pub mod Tags
mod Tests
