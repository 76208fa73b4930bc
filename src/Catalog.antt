-- ===== src/Catalog.antt =====
-- src/catalog.rs.
pub mod Records
pub mod Parser
pub mod Validate
pub mod Parsed
pub mod Tests
pub mod Coherence
pub mod Discovery
pub mod Input
pub mod Queries
pub mod Extension
pub mod Lookup
pub mod Rounds
pub mod Accepted
pub mod Snapshot
pub mod Identity
