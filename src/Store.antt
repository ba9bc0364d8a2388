-- ===== src/Store.antt =====
-- internal/store: the registry of paired devices, pairing sessions and nearby links.
pub mod Document
pub mod Registry
pub mod Tokens
pub mod Json
pub mod File
pub mod Cleanup
pub mod Load
pub mod Pairing
pub mod Rotation
pub mod Devices
pub mod LinkCode
pub mod Links
pub mod History
pub mod Limit
pub mod Failure
