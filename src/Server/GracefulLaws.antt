-- ===== src/Server/GracefulLaws.antt =====
-- When a client is told that the server shuts down.
use distributed_event_bus.Prelude.{
  ℕ, Bool, ◌≡◌, ◌≤◌, refl, ap, true, false, List, [], ◌∷◌, Text, some, ok, length, lookup, nat_key,
  text_key,
}
use distributed_event_bus.Protocol.Frame.{type_shutdown}
use distributed_event_bus.Broker.State.{Broker}
use distributed_event_bus.Broker.Publish.{Wakeup}
use distributed_event_bus.Broker.Openness.{IsOpenAt}
use distributed_event_bus.Broker.Invariant.Defs.{IsSound}
use distributed_event_bus.Messages.Fields.{max_string}
use distributed_event_bus.Messages.Codec.{encode_shutdown, decode_shutdown}
use distributed_event_bus.Messages.TextRoundTrip.{encode_shutdown_fits}
use distributed_event_bus.Server.State.{Connection}
use distributed_event_bus.Server.Lifecycle.{
  subscriptions, graceful_close, Ending, ends, still_waits, shutdown_notice, close_transport,
}
use distributed_event_bus.Server.Steps.{IsOrder}
use distributed_event_bus.Server.Closings.{
  visited-subscriptions, close_subscriptions-opens, close_connection_form,
}
use distributed_event_bus.Server.Drains.{drain_all-IsSound}
use distributed_event_bus.Server.Graceful.{
  was_closed, all_drained, unfinished, gives_up, waits_on, graceful_close-Graceful, drains_of,
  as_draining,
}
use distributed_event_bus.Server.Drained.{DoneAt, drain_all-done}

-- How the end of a connection `c` looks like, with what is sent to its client.
pub data Farewell (redirect : Text) (c : Connection) (after : (Connection × Broker) × Ending)
    : Type 0 where
  notifies :
      (payload : List ℕ)
      → after.1 ≡ ends (record { kind = type_shutdown; payload = payload } ∷ [])
      → decode_shutdown payload ≡ ok (record { redirect = redirect })
      → ((topic : Text) (r : ℕ) → lookup topic c.subs ≡ some r → DoneAt after.0.1.heap r)
      → after.0.0.closed ≡ true
      → Farewell redirect c after
  abandons :
      after.1 ≡ ends []
      → ((topic : Text) (r : ℕ)
          → lookup topic c.subs ≡ some r
          → IsOpenAt after.0.1.heap r topic
          → ⊥)
      → after.0.0.closed ≡ true
      → after.0.0.subs ≡ []
      → Farewell redirect c after
  waits_on_client :
      after.1 ≡ still_waits
      → after.0.0.closed ≡ false
      → after.0.0.draining ≡ true
      → Farewell redirect c after

notice_form :
    (redirect : Text) (payload : List ℕ)
    → encode_shutdown (record { redirect = redirect }) ≡ ok payload
    → shutdown_notice redirect ≡ record { kind = type_shutdown; payload = payload } ∷ []
unfolding shutdown_notice
notice_form redirect payload h = rw (h, shutdown_notice)

-- `gracefulClose` of a connection that is not closed, on a sound broker and with a redirect that fits in
-- a message, ends in one of three ways, whatever its reader does and when the context ends. Either the
-- client gets a SHUTDOWN frame with the redirect, and then each of the connection's subscriptions is
-- closed with an empty queue, and the connection is closed. Or it gets nothing, and the connection is
-- closed with none of its subscriptions open. Or the call still waits: for a reader, for a
-- delivery, or for the client to take the frame.
pub graceful_close-Farewell :
    (visit : List ℕ → List ℕ) (world : ℕ → List Wakeup) (finishes : Bool) (redirect : Text)
    (c : Connection) (b : Broker)
    → IsOrder visit
    → IsSound b
    → c.closed ≡ false
    → length redirect ≤ max_string
    → Farewell redirect c (graceful_close visit world finishes redirect c b)
graceful_close-Farewell visit world finishes redirect c b order sound live fits =
    let qs = visit (subscriptions c.subs) in
    let (payload, encoded, decoded) = encode_shutdown_fits (record { redirect = redirect }) fits in
    let b1 = (drains_of visit world c b).0 in
    elim (graceful_close-Graceful visit world finishes redirect c b) [
      | was_closed shut _ ↦ absurd (cc)
      | all_drained _ d _ e ↦ rw (e) (
          notifies payload (ap ends (notice_form redirect payload encoded)) decoded
            (λ topic r h.
              drain_all-done world qs r b sound d
                (visited-subscriptions visit topic r c.subs order h))
            (unfold close_transport in refl))
      | unfinished _ d _ e ↦ rw e (waits_on_client refl live refl)
      | gives_up _ x d e ↦
          rw (e, close_connection_form visit (as_draining c) b1 live)
            (abandons refl
              (λ topic r h o. cc (
                (close_subscriptions-opens qs r topic b1 (drain_all-IsSound world qs b sound) o).1,
                visited-subscriptions visit topic r c.subs order h,
              ))
              refl refl)
      | waits_on _ d e ↦ rw e (waits_on_client refl live refl)
    ]
