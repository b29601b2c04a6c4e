-- ===== src/Bitcoin.antt =====
-- p1/src/github.com/cmu440/bitcoin: the server that shares the work of its clients among miners.
pub mod Server
pub mod Partition
pub mod Tables
pub mod Counting
pub mod Serving
pub mod Assigning
pub mod Miner
pub mod Mining
pub mod Pooling
mod Tests
