-- ===== src/Processor/Deliver.antt =====
-- One FEC set as it comes over the wire: the packets that a theorem on the whole of `collect` is about.
pub mod Hold
pub mod Round
pub mod Content
pub mod Last
pub mod Others
pub mod Skip
pub mod Whole
pub mod Stream
pub mod Close
pub mod AnyOrder
mod Examples
