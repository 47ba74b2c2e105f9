-- ===== src/Server.antt =====
-- transport/tcp/server.go: the delivery of an event to a client, and the answer to a publish.
pub mod Delivery
pub mod DeliveryLaws
pub mod Publishing
pub mod PublishingLaws
pub mod State
pub mod Failures
pub mod Requests
pub mod Lifecycle
pub mod Steps
pub mod Ownership
pub mod Changes
pub mod Branches
pub mod Closings
pub mod OwnershipSteps
pub mod Graceful
pub mod OwnershipMoves
pub mod OwnershipClosings
pub mod Served
pub mod Reach
pub mod ServerClose
pub mod Drained
pub mod GracefulLaws
pub mod Refusals
pub mod RefusalLaws
pub mod Drains
pub mod Serving
