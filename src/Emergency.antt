-- ===== src/Emergency.antt =====
-- The local trust engine (crates/vault-emergency): access decisions and timed release.
pub mod Access
pub mod Release
