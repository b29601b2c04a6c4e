-- ===== src/Tribbler.antt =====
-- p2/src/github.com/cmu440/tribbler/tribserver: users, subscriptions and tribbles over a key-value store.
pub mod Store
pub mod Backend
pub mod Backing
pub mod Lawful
pub mod Server
pub mod Reading
pub mod Posting
pub mod Following
pub mod Subscribing
mod Fixture
mod Tests
