-- ===== src/Agent.antt =====
-- crates/nexus-link-agent.
pub mod Collector
pub mod Telemetry
pub mod PushLoop
