-- ===== src/Service.antt =====
-- crates/nexus-link-service.
pub mod State
pub mod Auth
pub mod CmdAuth
pub mod Files
pub mod ExtraFiles
pub mod PollerFiles
pub mod Command
pub mod Logs
pub mod Compose
pub mod Poller
pub mod PollLoop
pub mod NodeCommands
pub mod Router
