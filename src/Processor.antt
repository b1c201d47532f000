-- ===== src/Processor.antt =====
-- src/shred_processor.rs: shreds are gathered into FEC sets, and the entries of a set are decoded and
-- sent on once the set is complete.
pub mod State
pub mod Process
pub mod Deliver
pub mod Collect
pub mod Session
mod Examples
