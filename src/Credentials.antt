-- ===== src/Credentials.antt =====
-- Registry credentials of builds: the cache (pkg/credential) and its HTTP side (api/credential).
pub mod Cache
pub mod Matching
pub mod Isolation
pub mod Server
pub mod Guarded
mod Tests
