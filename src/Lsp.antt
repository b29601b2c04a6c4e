-- ===== src/Lsp.antt =====
-- p1/src/github.com/cmu440/lsp: the client of the Live Sequence Protocol and its buffers.
pub mod Message
pub mod Buffer
pub mod Sorted
pub mod Removal
pub mod Client
pub mod Arrivals
pub mod EventLoop
pub mod Moves
pub mod Replies
pub mod Readable
pub mod Delivery
pub mod Stream
pub mod Window
pub mod Sliding
pub mod Windowed
pub mod Turns
pub mod Settling
pub mod Closing
pub mod Epochs
mod Tests
