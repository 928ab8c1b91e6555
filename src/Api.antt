-- ===== src/Api.antt =====
-- The sync server (apps/api/src).
pub mod Policy
pub mod Tables
pub mod Store
pub mod Listing
pub mod Devices
pub mod Auth
pub mod Service
pub mod Topologies
