-- ===== src/Libstore.antt =====
-- p2/src/github.com/cmu440/tribbler/libstore: the caching client of the storage ring.
pub mod Route
pub mod Cache
pub mod Calls
pub mod Caching
pub mod Answers
pub mod Lent
pub mod Coherence
pub mod Covering
pub mod Staleness
pub mod Queries
mod Tests
