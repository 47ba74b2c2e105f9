-- ===== src/Commands.antt =====
-- cmd/: the process that runs the event bus, and a producer.
pub mod EventBus
pub mod Openings
pub mod Endings
pub mod EventBusLaws
pub mod Producer
pub mod Decimals
pub mod ProducerLaws
