-- ===== src/Stats.antt =====
-- Container statistics (internal/service/container/stats.go, pkg/statsutil/statsutil.go).
pub mod Types
pub mod V1
pub mod V2
pub mod Cgroups
pub mod Collect
pub mod Chain
pub mod Cpu
pub mod Usage
mod Tests
