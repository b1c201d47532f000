-- ===== src/Shred.antt =====
-- src/shred.rs: reading raw shreds, joining their data, and decoding entries.
pub mod Header
pub mod Payload
pub mod Entries
pub mod Sets
pub mod Debug
pub mod Repair
mod Examples
