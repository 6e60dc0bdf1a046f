-- ===== src/Exec.antt =====
-- internal/service/exec and api/handlers/exec: the processes that run in a container beside its own.
pub mod Service
pub mod Handlers
pub mod Stream
pub mod Create
pub mod Started
pub mod Resized
mod Tests
