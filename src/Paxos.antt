-- ===== src/Paxos.antt =====
-- p3/src/github.com/cmu440/flight_reservation/paxos: the peers that agree on a log of values.
pub mod Rpc
pub mod Replica
pub mod Slots
pub mod Proposer
pub mod Admin
pub mod Promises
pub mod Rounds
pub mod Majority
pub mod Deciding
pub mod Quorum
pub mod Cluster
pub mod Walk
mod Tests
