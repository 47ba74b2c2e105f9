-- ===== src/Tests/Transport.antt =====
-- The theorems on clients, servers and connection managers applied to small ones.
use distributed_event_bus.Prelude.{ℕ, zero, suc, ◌≤◌, ◌<◌, ◌≡◌, refl, true, [], ◌∷◌, ◌↔◌, text_key}
use distributed_event_bus.Wire.Bytes.{put_uint16, put_uint32}
use distributed_event_bus.Protocol.Frame.{type_event}
use distributed_event_bus.Messages.Fields.{write_string, write_bytes}
use distributed_event_bus.Messages.Codec.{encode_publish, encode_event, ack_delivered}
use distributed_event_bus.Server.Delivery.{
  Attempted, answers, times_out, deliver, delivery_max_attempts,
}
use distributed_event_bus.Server.DeliveryLaws.{Acknowledges, copies, deliver-Acknowledges}
use distributed_event_bus.Manager.Endpoints.{connect}
use distributed_event_bus.Manager.EndpointLaws.{Connects, connect-Connects}
use distributed_event_bus.Tests.Samples.{network, manager, event_payload, news, event}

-- The client does not answer at first, then asks again, then acknowledges.
abbrev slow_client : ℕ → Attempted
slow_client zero = times_out
slow_client (suc zero) = times_out
slow_client (suc (suc zero)) = answers 5
slow_client (suc (suc (suc n))) = answers ack_delivered

deliver-Acknowledges_example :
    ((deliver slow_client (event 1)).0 ≡ true
      ↔ ((n : ℕ) × (n < delivery_max_attempts) × Acknowledges slow_client 1 n))
    × ((n : ℕ) × (n ≤ delivery_max_attempts)
        × ((deliver slow_client (event 1)).1
            ≡ copies n (record { kind = type_event; payload = event_payload })))
unfolding encode_event write_string write_bytes put_uint16 put_uint32 encode_publish
deliver-Acknowledges_example = deliver-Acknowledges slow_client (event 1) event_payload refl

connect-Connects_example : Connects network ([] ∷ news ∷ []) manager (connect network manager)
connect-Connects_example = connect-Connects network manager
