-- ===== src/Containers/Create.antt =====
-- POST /containers/create: api/handlers/container/create.go, the structures of
-- api/types/container_types.go that it reads, and internal/service/container/create.go.
pub mod Request
pub mod Translate
pub mod Volumes
pub mod Ports
pub mod Devices
pub mod Usable
pub mod Service
pub mod Options
pub mod Handler
pub mod Served
mod Tests
