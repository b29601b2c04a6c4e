-- ===== src/Storage.antt =====
-- p2/src/github.com/cmu440/tribbler/storageserver: one server of the key-value ring.
pub mod Rpc
pub mod Server
pub mod Calls
pub mod Ring
pub mod Values
pub mod Items
pub mod Sets
pub mod Removal
pub mod Leasing
pub mod Waiting
pub mod Joining
mod Tests
