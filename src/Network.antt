-- ===== src/Network.antt =====
-- The network service (internal/service/network).
pub mod Locks
pub mod Bridge
pub mod Iptables
pub mod Service
pub mod Connect
pub mod Handlers
pub mod Naming
pub mod Listing
mod Tests
