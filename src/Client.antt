-- ===== src/Client.antt =====
-- flud/protocol/ClientPrimitives.py: the client's storage requests. Its parts are in the child modules.
pub mod Challenge
pub mod Requests
pub mod Files
pub mod Rounds
pub mod Bounds
pub mod Safe
pub mod Tokens
pub mod Handshake
pub mod Save
pub mod Multipart
pub mod Pieces
pub mod Saved
pub mod RoundTrip
pub mod Aggregate
pub mod Waiters
pub mod Aggregated
mod AggregateTests
mod SaveTests
mod Tests
