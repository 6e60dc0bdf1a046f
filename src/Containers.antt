-- ===== src/Containers.antt =====
-- The container service and its HTTP handlers (internal/service/container and
-- api/handlers/container): starting, stopping, pausing, killing, restarting, renaming, removing and
-- waiting for a container.
pub mod Backend
pub mod Service
pub mod Handlers
pub mod Create
pub mod Top
mod Tests
