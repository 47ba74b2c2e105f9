-- ===== src/Protocol/Frame.antt =====
-- protocol/frame.go: the frame, `ReadFrame`, `WriteFrame` and `writeFull`. Frame types and bytes
-- are numbers below 256.
use distributed_event_bus.Prelude.{
  ℕ, zero, suc, ◌*◌, ◌^◌, ◌≤◌, ◌%◌, ◌<◌, List, [], ◌∷◌, ◌++◌, Result, ok, err, ◌>>=◌, length, take,
  drop, ltb, leb, ◌==◌, if◌then◌else◌, Option, none, some,
}
use distributed_event_bus.Wire.Bytes.{
  WireError, invalid_frame, oversized, short_write, IsBytes, put_uint32, uint32,
}
use distributed_event_bus.Wire.Stream.{Source, read_full, Written}

abbrev pub header_size : ℕ
header_size = 5

abbrev pub max_payload_size : ℕ
max_payload_size = 16 * 2 ^ 20

-- The values of `Type`.
abbrev pub type_connect : ℕ
type_connect = 1

abbrev pub type_subscribe : ℕ
type_subscribe = 2

abbrev pub type_publish : ℕ
type_publish = 3

abbrev pub type_event : ℕ
type_event = 4

abbrev pub type_ack : ℕ
type_ack = 5

abbrev pub type_unsubscribe : ℕ
type_unsubscribe = 6

abbrev pub type_ping : ℕ
type_ping = 7

abbrev pub type_pong : ℕ
type_pong = 8

abbrev pub type_error : ℕ
type_error = 9

abbrev pub type_shutdown : ℕ
type_shutdown = 10

pub record Frame : Type 0 where
  pub kind : ℕ
  pub payload : List ℕ

-- `b[i]`, which the code only takes inside the slice.
abbrev pub byte_at : ℕ → List ℕ → ℕ
byte_at i [] = 0
byte_at zero (b ∷ bs) = b
byte_at (suc i) (b ∷ bs) = byte_at i bs

-- The checks on a header stand before its payload is read.
unfoldable pub read_payload : List ℕ → Source → Result WireError (Frame × Source)
read_payload header s =
    let payload_size = uint32 (take 4 header) in
    if ltb max_payload_size payload_size
    then err (oversized payload_size)
    else if byte_at 4 header == 0
    then err invalid_frame
    else (do
      (payload, s') ← read_full payload_size s
      ok (record { kind = byte_at 4 header; payload = payload }, s'))

-- `ReadFrame`
unfoldable pub read_frame : Source → Result WireError (Frame × Source)
unfolding read_payload
read_frame s = do (header, s') ← read_full header_size s; read_payload header s'

module _ {S : Type 0} (write : S → List ℕ → Written S) where
  -- `writeFull` on fuel: the error, if there is one, and the writer. `none` is no result: the fuel
  -- ran out, or the writer claims more than it was given and `data[n:]` panics.
  unfoldable pub write_full : ℕ → S → List ℕ → Option (Option WireError × S)
  write_full fuel s [] = some (none, s)
  write_full zero s (b ∷ bs) = none
  write_full (suc fuel) s (b ∷ bs) =
      let w = write s (b ∷ bs) in
      let rest = write_full fuel w.after (drop w.count (b ∷ bs)) in
      elim w.failure [
        | some e ↦ some (some e, w.after)
        | none ↦
            if w.count == 0
            then some (some short_write, w.after)
            else if leb w.count (length (b ∷ bs))
            then rest
            else none
      ]

  -- `WriteFrame`. Each round of `writeFull` takes a byte at least, so the length is enough fuel.
  unfoldable pub write_frame : S → Frame → Option (Option WireError × S)
  write_frame s f =
      if f.kind == 0
      then some (some invalid_frame, s)
      else if ltb max_payload_size (length f.payload)
      then some (some (oversized (length f.payload)), s)
      else (let header = put_uint32 (length f.payload % 2 ^ 32) ++ (f.kind ∷ []) in
          elim (write_full (length header) s header) [
            | none ↦ none
            | some (some e, s') ↦ some (some e, s')
            | some (none, s') ↦ write_full (length f.payload) s' f.payload
          ])

-- The wire format of a frame: its size in four bytes, its type in one, its payload.
abbrev pub frame_bytes : Frame → List ℕ
frame_bytes f = put_uint32 (length f.payload) ++ f.kind ∷ f.payload

-- A frame that the format can carry.
pub record IsValid (f : Frame) : Type 0 where
  pub typed : 0 < f.kind
  pub type_byte : f.kind < 256
  pub bounded : length f.payload ≤ max_payload_size
  pub payload_bytes : IsBytes f.payload
