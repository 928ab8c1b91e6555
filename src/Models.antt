-- ===== src/Models.antt =====
-- The records of a vault item that other components act on (crates/vault-models).
pub mod Policy
pub mod Reminders
pub mod Identity
