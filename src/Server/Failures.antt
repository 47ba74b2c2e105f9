-- ===== src/Server/Failures.antt =====
-- transport/tcp/server.go: the error messages that a connection sends.
use distributed_event_bus.Prelude.{
  ℕ, zero, suc, ◌+◌, ◌/◌, ◌%◌, List, [], ◌∷◌, ◌++◌, Text, ok, err, ltb, if◌then◌else◌,
}
use distributed_event_bus.Wire.Bytes.{
  WireError, eof, unexpected_eof, short_write, failed, frame_too_large, invalid_frame,
  invalid_payload, oversized,
}
use distributed_event_bus.Protocol.Frame.{Frame, type_error}
use distributed_event_bus.Broker.State.{Error}
use distributed_event_bus.Messages.Codec.{encode_error}
use distributed_event_bus.Server.Publishing.{error_text}

-- "client must send CONNECT first"
abbrev pub not_connected_text : Text
not_connected_text =
    99 ∷ 108 ∷ 105 ∷ 101 ∷ 110 ∷ 116 ∷ 32 ∷ 109 ∷ 117 ∷ 115 ∷ 116 ∷ 32 ∷ 115 ∷ 101 ∷ 110 ∷ 100 ∷ 32
    ∷ 67 ∷ 79 ∷ 78 ∷ 78 ∷ 69 ∷ 67 ∷ 84 ∷ 32 ∷ 102 ∷ 105 ∷ 114 ∷ 115 ∷ 116 ∷ []

-- "invalid CONNECT payload: "
abbrev pub invalid_connect_text : Text
invalid_connect_text =
    105 ∷ 110 ∷ 118 ∷ 97 ∷ 108 ∷ 105 ∷ 100 ∷ 32 ∷ 67 ∷ 79 ∷ 78 ∷ 78 ∷ 69 ∷ 67 ∷ 84 ∷ 32 ∷ 112 ∷ 97
    ∷ 121 ∷ 108 ∷ 111 ∷ 97 ∷ 100 ∷ 58 ∷ 32 ∷ []

-- "invalid SUBSCRIBE payload"
abbrev pub invalid_subscribe_text : Text
invalid_subscribe_text =
    105 ∷ 110 ∷ 118 ∷ 97 ∷ 108 ∷ 105 ∷ 100 ∷ 32 ∷ 83 ∷ 85 ∷ 66 ∷ 83 ∷ 67 ∷ 82 ∷ 73 ∷ 66 ∷ 69 ∷ 32
    ∷ 112 ∷ 97 ∷ 121 ∷ 108 ∷ 111 ∷ 97 ∷ 100 ∷ []

-- "invalid PUBLISH payload"
abbrev pub invalid_publish_text : Text
invalid_publish_text =
    105 ∷ 110 ∷ 118 ∷ 97 ∷ 108 ∷ 105 ∷ 100 ∷ 32 ∷ 80 ∷ 85 ∷ 66 ∷ 76 ∷ 73 ∷ 83 ∷ 72 ∷ 32 ∷ 112 ∷ 97
    ∷ 121 ∷ 108 ∷ 111 ∷ 97 ∷ 100 ∷ []

-- "unsupported frame type: "
abbrev pub unsupported_text : Text
unsupported_text =
    117 ∷ 110 ∷ 115 ∷ 117 ∷ 112 ∷ 112 ∷ 111 ∷ 114 ∷ 116 ∷ 101 ∷ 100 ∷ 32 ∷ 102 ∷ 114 ∷ 97 ∷ 109
    ∷ 101 ∷ 32 ∷ 116 ∷ 121 ∷ 112 ∷ 101 ∷ 58 ∷ 32 ∷ []

-- "invalid message payload"
abbrev pub invalid_payload_text : Text
invalid_payload_text =
    105 ∷ 110 ∷ 118 ∷ 97 ∷ 108 ∷ 105 ∷ 100 ∷ 32 ∷ 109 ∷ 101 ∷ 115 ∷ 115 ∷ 97 ∷ 103 ∷ 101 ∷ 32 ∷ 112
    ∷ 97 ∷ 121 ∷ 108 ∷ 111 ∷ 97 ∷ 100 ∷ []

-- "invalid frame"
abbrev pub invalid_frame_text : Text
invalid_frame_text = 105 ∷ 110 ∷ 118 ∷ 97 ∷ 108 ∷ 105 ∷ 100 ∷ 32 ∷ 102 ∷ 114 ∷ 97 ∷ 109 ∷ 101 ∷ []

-- "frame payload exceeds maximum size"
abbrev pub too_large_text : Text
too_large_text =
    102 ∷ 114 ∷ 97 ∷ 109 ∷ 101 ∷ 32 ∷ 112 ∷ 97 ∷ 121 ∷ 108 ∷ 111 ∷ 97 ∷ 100 ∷ 32 ∷ 101 ∷ 120 ∷ 99
    ∷ 101 ∷ 101 ∷ 100 ∷ 115 ∷ 32 ∷ 109 ∷ 97 ∷ 120 ∷ 105 ∷ 109 ∷ 117 ∷ 109 ∷ 32 ∷ 115 ∷ 105 ∷ 122
    ∷ 101 ∷ []

-- " bytes"
abbrev pub bytes_text : Text
bytes_text = 32 ∷ 98 ∷ 121 ∷ 116 ∷ 101 ∷ 115 ∷ []

-- "EOF"
abbrev pub eof_text : Text
eof_text = 69 ∷ 79 ∷ 70 ∷ []

-- "unexpected EOF"
abbrev pub unexpected_eof_text : Text
unexpected_eof_text =
    117 ∷ 110 ∷ 101 ∷ 120 ∷ 112 ∷ 101 ∷ 99 ∷ 116 ∷ 101 ∷ 100 ∷ 32 ∷ 69 ∷ 79 ∷ 70 ∷ []

-- "short write"
abbrev pub short_write_text : Text
short_write_text = 115 ∷ 104 ∷ 111 ∷ 114 ∷ 116 ∷ 32 ∷ 119 ∷ 114 ∷ 105 ∷ 116 ∷ 101 ∷ []

-- `%d`: the decimal digits of a number. Each round divides by ten, so that the number is enough fuel.
unfoldable pub digits : ℕ → ℕ → Text
digits zero n = (48 + n % 10) ∷ []
digits (suc fuel) n =
    let front = digits fuel (n / 10) in
    if ltb n 10 then (48 + n) ∷ [] else (front ++ ((48 + n % 10) ∷ []))

-- The errors that the handlers of a connection return.
pub data Failure : Type 0 where
  not_connected invalid_subscribe invalid_publish : Failure
  invalid_connect : WireError → Failure
  of_broker : Error → Failure
  of_codec : WireError → Failure
  unsupported : ℕ → Failure

-- What the network calls its errors is not in the code.
module _ (network_text : ℕ → Text) where
  -- `err.Error()` of an error below the connection.
  unfoldable pub wire_text : WireError → Text
  unfolding digits
  wire_text eof = eof_text
  wire_text unexpected_eof = unexpected_eof_text
  wire_text short_write = short_write_text
  wire_text (failed n) = network_text n
  wire_text frame_too_large = too_large_text
  wire_text invalid_frame = invalid_frame_text
  wire_text invalid_payload = invalid_payload_text
  wire_text (oversized n) = too_large_text ++ (58 ∷ 32 ∷ []) ++ digits n n ++ bytes_text

  -- `err.Error()`
  unfoldable pub failure_text : Failure → Text
  unfolding wire_text error_text digits
  failure_text not_connected = not_connected_text
  failure_text invalid_subscribe = invalid_subscribe_text
  failure_text invalid_publish = invalid_publish_text
  failure_text (invalid_connect e) = invalid_connect_text ++ wire_text e
  failure_text (of_broker e) = error_text e
  failure_text (of_codec e) = wire_text e
  failure_text (unsupported kind) = unsupported_text ++ digits kind kind

  -- `sendError`: the frame that it gives to `send`, if the text can be encoded.
  unfoldable pub send_error : Failure → List Frame
  unfolding failure_text
  send_error failure = elim (encode_error (record { error = failure_text failure })) [
    | err _ ↦ []
    | ok payload ↦ record { kind = type_error; payload = payload } ∷ []
  ]
