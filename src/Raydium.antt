-- ===== src/Raydium.antt =====
-- src/raydium.rs: the instructions of the Raydium program, the price of a pool, and a swap on it.
pub mod Instruction
pub mod Swap
pub mod Json
pub mod Download
mod Examples
