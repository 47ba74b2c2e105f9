-- ===== src/Protocol.antt =====
-- protocol/frame.go: one length-delimited message on the wire.
pub mod Frame
pub mod Writing
pub mod Reading
pub mod RoundTrip
