-- ===== src/Manager.antt =====
-- transport/tcp/connection_manager.go: the endpoints of a client and the way to one of them.
pub mod Endpoints
pub mod EndpointLaws
pub mod Calls
pub mod Recovery
pub mod RecoveryLaws
pub mod PublishLaws
pub mod Redirects
