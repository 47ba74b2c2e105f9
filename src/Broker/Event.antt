-- ===== src/Broker/Event.antt =====
-- broker/broker.go: the event and its deduplication key.
use distributed_event_bus.Prelude.{ℕ, List, Text, length, ◌==◌, if◌then◌else◌}

pub record Event : Type 0 where
  pub id : Text
  pub idempotency_key : Text
  pub topic : Text
  pub key : Text
  pub payload : List ℕ

-- `idempotencyKey`: the key of the business operation, or else the message's ID.
unfoldable pub event_key : Event → Text
event_key e = if length e.idempotency_key == 0 then e.id else e.idempotency_key
