-- ===== src/Tests.antt =====
-- The theorems about backend/ at concrete inputs.
pub mod Fixtures
pub mod Slots
pub mod Learning
pub mod Access
pub mod Launching
pub mod Background
pub mod Connections
pub mod Console
pub mod Checks
pub mod Collecting
pub mod Observing
pub mod Policy
pub mod Servers
pub mod Answers
