-- ===== src/Admission.antt =====
-- The admission verifier, internal/admission.
mod Sample
mod Opened
mod Claim
mod Tests
mod ClaimTests
pub mod Types
pub mod Paths
pub mod Policy
pub mod Projections
pub mod Candidates
pub mod Effective
pub mod Completeness
pub mod Authority
pub mod Binding
pub mod Evidence
pub mod Ancestry
pub mod Restoration
pub mod Exception
pub mod Denial
pub mod Verify
