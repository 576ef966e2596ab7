-- ===== src/Domain.antt =====
-- The domain package, internal/domain: the records that the admission verifier and the local run
-- read and write.
mod Lineage
mod Policy
mod Packet
mod Artifacts
mod Identifiers
mod Specs
unfoldable pub use Lineage.*
unfoldable pub use Policy.*
unfoldable pub use Packet.*
unfoldable pub use Artifacts.*
unfoldable pub use Identifiers.*
unfoldable pub use Specs.*
