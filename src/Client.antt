-- ===== src/Client.antt =====
-- transport/tcp/client.go: the deliveries that a client remembers.
pub mod Deliveries
pub mod DeliverySteps
pub mod DeliveryLaws
pub mod State
pub mod Calls
pub mod ReadLoop
pub mod Suppression
pub mod Histories
pub mod Acknowledged
