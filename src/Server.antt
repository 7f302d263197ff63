-- ===== src/Server.antt =====
-- flud/protocol/AiohttpServer.py: the server of a node. Its parts are in the child modules.
pub mod Auth
pub mod Replay
pub mod Meta
pub mod Stored
pub mod Requests
pub mod Kept
pub mod Files
pub mod Multipart
pub mod Body
pub mod Retrieve
pub mod Delete
pub mod Probe
pub mod Verify
pub mod Verified
pub mod Store
pub mod Parts
pub mod Blocks
pub mod Removed
pub mod Gate
pub mod Loss
mod Tests
mod FileTests
