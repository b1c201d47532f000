-- ===== src/Arb.antt =====
-- src/arb.rs and src/entry_processor.rs: the state of the pools, what a transaction does to it, and
-- the processor that passes transactions on.
pub mod Pools
pub mod Entries
mod Examples
