-- ===== src/Lineage.antt =====
-- The lineage store, internal/lineage: the graph of a work unit.
mod ClaimTests
mod Opened
pub mod Graph
