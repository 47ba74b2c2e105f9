-- ===== src/Broker.antt =====
-- broker/broker.go: the in-memory core of the event bus.
pub mod Event
pub mod State
pub mod Subscription
pub mod Memory
pub mod Publish
pub mod MemoryLaws
pub mod PublishCases
pub mod PublishLaws
pub mod FanOutLaws
pub mod Invariant
pub mod Reach
pub mod SubscribeLaws
pub mod Delivery
pub mod Waiting
pub mod Success
pub mod Order
pub mod OrderLaws
pub mod Drain
pub mod Outage
pub mod SnapshotLaws
pub mod Openness
pub mod Interleaving
pub mod InterleavingLaws
