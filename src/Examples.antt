-- ===== src/Examples.antt =====
-- Concrete inputs: the theorems at work on them, and tests of the definitions.
pub mod Sync
pub mod Protocol
pub mod Api
pub mod Service
pub mod Topologies
pub mod Devices
pub mod Models
pub mod Emergency
pub mod Auth
pub mod Reminders
pub mod Identity
