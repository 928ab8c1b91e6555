-- ===== src/Sync.antt =====
-- The sync contracts of crates/vault-sync: the household topology and the opaque object protocol.
pub mod Types
pub mod Equality
pub mod Checks
pub mod Records
pub mod Topology
pub mod Scope
pub mod Authorize
pub mod Migration
pub mod Compatibility
pub mod Protocol
