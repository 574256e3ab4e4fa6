-- ===== src/Cli.antt =====
-- crates/nexus-link-cli.
pub mod ConfigCmd
pub mod Refresh
pub mod Register
pub mod Upgrade
pub mod Reset
pub mod Unregister
pub mod AgentCmd
pub mod Main
