-- ===== src/Client/State.antt =====
-- transport/tcp/client.go: the client, its errors, `newMessageID`, `send` and `Close`.
use distributed_event_bus.Prelude.{
  ℕ, ◌+◌, ◌/◌, ◌%◌, Bool, true, false, List, [], ◌∷◌, Text, Option, none, some, Result, ok, err,
  ltb, length, ◌==◌, if◌then◌else◌, Map,
}
use distributed_event_bus.Wire.Bytes.{WireError, invalid_frame, oversized}
use distributed_event_bus.Protocol.Frame.{Frame, max_payload_size}
use distributed_event_bus.Broker.Event.{Event}
use distributed_event_bus.Broker.State.{ContextError}
use distributed_event_bus.Messages.Codec.{AckMessage}
use distributed_event_bus.Client.Deliveries.{Deliveries, no_deliveries}

-- `events` and `shutdowns` hold what is in the channels, the oldest first. `pending` leads from the ID of
-- a message to the channel of its publisher, which is an index into `channels`. Such a channel has room
-- for one acknowledgement. `done` says whether the channel of that name is closed, which `Close` does
-- together with the connection.
pub record Client : Type 0 where
  pub events : List Event
  pub shutdowns : List Text
  pub events_closed : Bool
  pub shutdowns_closed : Bool
  pub done : Bool
  pub pending : Map Text ℕ
  pub channels : List (Option AckMessage)
  pub deliveries : Deliveries

-- The capacities of `events` and `shutdowns`.
abbrev pub events_capacity : ℕ
events_capacity = 32

abbrev pub shutdowns_capacity : ℕ
shutdowns_capacity = 1

-- The client that `Dial` makes.
unfoldable pub new_client : Client
unfolding no_deliveries
new_client = record {
  events = [];
  shutdowns = [];
  events_closed = false;
  shutdowns_closed = false;
  done = false;
  pending = [];
  channels = [];
  deliveries = no_deliveries;
}

-- The errors that the methods of a client return.
pub data ClientError : Type 0 where
  client_closed id_required connect_failed : ClientError
  of_wire : WireError → ClientError
  rejected : Text → ClientError
  of_context : ContextError → ClientError

-- The frames that `WriteFrame` refuses before it writes.
unfoldable pub refusal : Frame → Option WireError
refusal frame =
    if frame.kind == 0
    then some invalid_frame
    else if ltb max_payload_size (length frame.payload)
    then some (oversized (length frame.payload))
    else none

-- `send`: the error, and what it has written. The first argument is the error of the connection while
-- `WriteFrame` writes the frame.
unfoldable pub send : Option WireError → Frame → Client → Option ClientError × List Frame
unfolding refusal
send failure frame c = if c.done then (some client_closed, []) else elim (refusal frame) [
  | some e ↦ (some (of_wire e), [])
  | none ↦ elim failure [ none ↦ (none, frame ∷ []) | some e ↦ (some (of_wire e), []) ]
]

-- `Close`
unfoldable pub close : Client → Client
close c = record c { done = true }

-- `hex.EncodeToString`
abbrev hex_digit : ℕ → ℕ
hex_digit n = if ltb n 10 then 48 + n else 87 + n

unfoldable pub hex : List ℕ → Text
hex [] = []
hex (b ∷ bs) = hex_digit (b / 16) ∷ hex_digit (b % 16) ∷ hex bs

-- `newMessageID`. The argument is what `rand.Read` does: its error, or the sixteen bytes.
unfoldable pub new_message_id : Result WireError (List ℕ) → Result ClientError Text
unfolding hex
new_message_id (err e) = err (of_wire e)
new_message_id (ok bytes) = ok (hex bytes)
