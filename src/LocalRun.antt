-- ===== src/LocalRun.antt =====
-- The trusted local run, internal/localrun.
mod Sample
mod Opened
mod ClaimTests
mod RuleTests
pub mod Action
pub mod Types
pub mod Checks
pub mod Delta
pub mod Escalation
pub mod Validate
pub mod Store
pub mod Host
pub mod Inspect
pub mod Receipt
pub mod Prepare
pub mod Start
pub mod Finish
pub mod Retained
pub mod Life
