-- ===== src/Core.antt =====
-- crates/nexus-link-core.
pub mod Token
pub mod Config
pub mod ConfigFile
pub mod Preflight
pub mod Network
pub mod Setup
