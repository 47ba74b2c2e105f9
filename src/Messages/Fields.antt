-- ===== src/Messages/Fields.antt =====
-- transport/tcp/messages.go: length-prefixed strings and byte slices. A `bytes.Buffer` is the list
-- of the bytes written so far, a `bytes.Reader` the list of those still to read.
use distributed_event_bus.Prelude.{
  ℕ, ◌-◌, ◌%◌, ◌^◌, List, ◌++◌, Result, ok, err, ◌>>=◌, Text, length, ltb, if◌then◌else◌,
}
use distributed_event_bus.Wire.Bytes.{
  WireError, invalid_payload, frame_too_large, put_uint16, put_uint32, uint16, uint32, read_exact,
}
use distributed_event_bus.Protocol.Frame.{max_payload_size}

-- `int(^uint16(0))`
abbrev pub max_string : ℕ
max_string = 2 ^ 16 - 1

unfoldable pub write_string : List ℕ → Text → Result WireError (List ℕ)
write_string buffer value =
    if ltb max_string (length value)
    then err invalid_payload
    else ok ((buffer ++ put_uint16 (length value % 2 ^ 16)) ++ value)

unfoldable pub read_string : List ℕ → Result WireError (Text × List ℕ)
read_string r = do (size, r') ← read_exact 2 r; read_exact (uint16 size) r'

unfoldable pub write_bytes : List ℕ → List ℕ → Result WireError (List ℕ)
write_bytes buffer bs =
    if ltb max_payload_size (length bs)
    then err frame_too_large
    else ok ((buffer ++ put_uint32 (length bs % 2 ^ 32)) ++ bs)

-- `readBytes` behind its length prefix.
unfoldable pub read_sized : ℕ → List ℕ → Result WireError (List ℕ × List ℕ)
read_sized size r = if ltb max_payload_size size then err frame_too_large else read_exact size r

unfoldable pub read_bytes : List ℕ → Result WireError (List ℕ × List ℕ)
unfolding read_sized
read_bytes r = do (size, r') ← read_exact 4 r; read_sized (uint32 size) r'
