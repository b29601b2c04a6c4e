-- ===== src/Flight.antt =====
-- p3/src/github.com/cmu440/flight_reservation/server: the airline server that replays the agreed log.
pub mod Rpc
pub mod Operations
pub mod Server
pub mod Replay
pub mod Finishing
pub mod Tickets
pub mod Queries
mod Tests
