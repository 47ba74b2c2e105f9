-- ===== src/Wire.antt =====
-- What protocol/frame.go and transport/tcp/messages.go use of Go's `io`, `bytes` and
-- `encoding/binary`: byte streams that arrive in pieces, big-endian integers, and the errors.
pub mod Bytes
pub mod Stream
pub mod BytesLaws
pub mod StreamLaws
