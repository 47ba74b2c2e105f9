-- ===== src/Server/Serving.antt =====
-- transport/tcp/server.go: `serve`, from the first frame of a client to the end of its connection.
use distributed_event_bus.Prelude.{
  ℕ, Bool, true, false, List, [], ◌∷◌, ◌++◌, Text, none, some, if◌then◌else◌,
}
use distributed_event_bus.Protocol.Frame.{Frame}
use distributed_event_bus.Broker.State.{Broker}
use distributed_event_bus.Broker.Publish.{Choices}
use distributed_event_bus.Server.State.{Connection}
use distributed_event_bus.Server.Failures.{send_error}
use distributed_event_bus.Server.Requests.{reacts, stuck, handle_frame, greet}
use distributed_event_bus.Server.Lifecycle.{abort}

module _ (network_text : ℕ → Text) (choices : Choices) (server_draining : Bool) where
  -- The loop, on the frames that can be read before an error: whether it waits in a publish, and the
  -- frames that it has given to `send`.
  unfoldable pub serve_loop :
      List Frame → Connection → Broker → (Connection × Broker) × (Bool × List Frame)
  unfolding handle_frame
  serve_loop [] c b = ((c, b), (false, []))
  serve_loop (frame ∷ frames) c b =
      let ((c', b'), reaction) = handle_frame network_text choices server_draining frame c b in
      let (after, (waiting, sent)) = serve_loop frames c' b' in
      elim reaction [
        | reacts out ↦ (after, (waiting, out ++ sent))
        | stuck ↦ ((c', b'), (true, []))
      ]

  -- `serve`, with its `defer c.abort()`.
  unfoldable pub serve :
      (List ℕ → List ℕ)
      → List Frame
      → Connection
      → Broker
      → (Connection × Broker) × (Bool × List Frame)
  unfolding serve_loop greet abort send_error
  serve visit [] c b = (abort visit server_draining c b, (false, []))
  serve visit (frame ∷ frames) c b =
      let ((c', b'), (waiting, sent)) = serve_loop frames c b in
      elim (greet frame) [
        | some failure ↦ (abort visit server_draining c b, (false, send_error network_text failure))
        | none ↦
            if waiting
            then ((c', b'), (true, sent))
            else (abort visit server_draining c' b', (false, sent))
      ]
