-- ===== src/Project.antt =====
-- The project service, internal/project: the managed block in an owner's instruction file.
mod ClaimTests
pub mod Block
