-- ===== src/Tcp.antt =====
-- TCP: src/tcp.cc with the types of include/tcp.h, and mysocket_t of include/core.h.
pub mod Types
pub mod Data
pub mod Handler
pub mod Wire
pub mod Buffers
pub mod Graph
pub mod Events
pub mod Peers
pub mod Untouched
pub mod Handshake
pub mod Teardown
pub mod Chunks
pub mod Transfer
pub mod Stream
pub mod Steady
pub mod ReadWrite
pub mod Kernel
pub mod Listen
pub mod Demux
pub mod Sockets
pub mod Listening
pub mod Bounds
pub mod Faults
pub mod Replies
mod BoundsTests
mod DemuxTests
mod Tests
