-- ===== src/Broker/Invariant.antt =====
-- The state of a broker between two calls: what holds of its queues, its topics, its cache and its
-- memory of keys.
pub mod Defs
pub mod Memory
pub mod Standings
pub mod Topics
pub mod Unregister
pub mod Layout
pub mod Calls
pub mod Subscribing
pub mod CloseLoop
pub mod Closing
