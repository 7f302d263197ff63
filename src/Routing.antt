-- ===== src/Routing.antt =====
-- flud/FludkRouting.py: the routing table of the DHT layer.
pub mod Node
pub mod NodeLists
pub mod NodeCache
pub mod Bucket
pub mod Table
mod Tests
