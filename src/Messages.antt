-- ===== src/Messages.antt =====
-- transport/tcp/messages.go: the payloads of the frames.
pub mod Fields
pub mod Codec
pub mod FieldLaws
pub mod Steps
pub mod RoundTrip
pub mod TextRoundTrip
pub mod PublishRoundTrip
pub mod Rejects
