-- ===== src/Tests.antt =====
-- Runs of the program at concrete values, and instances of the theorems.
pub mod Samples
pub mod CoreTests
pub mod CliTests
pub mod RefreshTests
pub mod ServiceTests
pub mod AuthTests
pub mod RouterTests
pub mod AgentTests
pub mod LoopTests
pub mod Machines
pub mod MachineTests
pub mod UpgradeTests
