-- ===== src/Manager/Calls.antt =====
-- transport/tcp/connection_manager.go: the calls of the application.
use distributed_event_bus.Prelude.{
  ℕ, zero, suc, ◌+◌, Bool, true, List, [], ◌∷◌, Text, Option, none, some, Result, ok, err,
  if◌then◌else◌, add, text_key,
}
use distributed_event_bus.Wire.Bytes.{WireError}
use distributed_event_bus.Broker.Event.{Event}
use distributed_event_bus.Broker.State.{ContextError}
use distributed_event_bus.Client.State.{ClientError, client_closed}
use distributed_event_bus.Client.Calls.{identify}
use distributed_event_bus.Manager.Endpoints.{Manager, Network, connect, new_manager}

-- The errors that the methods of a manager return.
pub data ManagerError : Type 0 where
  no_broker_available : ManagerError
  of_client : ClientError → ManagerError
  of_context : ContextError → ManagerError

unfoldable pub client_result : Option ClientError → Option ManagerError
client_result none = none
client_result (some e) = some (of_client e)

-- `Subscribe`. The first argument is what the client's own call returns.
unfoldable pub subscribe :
    (ℕ → Text → Option ClientError) → Text → Manager → Manager × Option ManagerError
unfolding client_result
subscribe call topic m = (
  record m { topics = add topic m.topics },
  elim m.current [
    | none ↦ some no_broker_available
    | some client ↦ client_result (call client topic)
  ],
)

-- `Acknowledge`
unfoldable pub acknowledge : (ℕ → Text → Option ClientError) → Text → Manager → Option ManagerError
unfolding client_result
acknowledge call event_id m = elim m.current [
  | none ↦ some no_broker_available
  | some client ↦ client_result (call client event_id)
]

-- `Close`: the manager, and the client that it closes.
unfoldable pub close : Manager → Manager × Option ℕ
close m = if m.done then (m, none) else (record m { done = true; current = none }, m.current)

-- What a round of the loop of `Publish` finds: the current client, what that client's own call returns,
-- and whether `done` is closed before the time is over.
pub record Round : Type 0 where
  pub current : Option ℕ
  pub result : Option ClientError
  pub closed : Bool

-- `Publish` makes so many attempts.
abbrev pub publish_attempts : ℕ
publish_attempts = 50

-- The loop, with the attempts that are left and the number of this one: the error, and the events that
-- it has given to clients.
unfoldable pub publish_loop : (ℕ → Round) → Event → ℕ → ℕ → Option ManagerError × List (ℕ × Event)
publish_loop world event zero attempt = (some no_broker_available, [])
publish_loop world event (suc left) attempt =
    let round = world attempt in
    let (later, given) = publish_loop world event left (attempt + 1) in
    elim round.current [
      | none ↦ if round.closed then (some (of_client client_closed), []) else (later, given)
      | some client ↦ elim round.result [
        | none ↦ (none, (client, event) ∷ [])
        | some e ↦
            if round.closed
            then (some (of_client client_closed), (client, event) ∷ [])
            else (later, (client, event) ∷ given)
      ]
    ]

-- `Publish`
unfoldable pub publish :
    Result WireError (List ℕ) → (ℕ → Round) → Event → Option ManagerError × List (ℕ × Event)
unfolding publish_loop
publish random world event = elim (identify random event) [
  | err e ↦ (some (of_client e), [])
  | ok event' ↦ publish_loop world event' publish_attempts 0
]

-- `connectUntilAvailable`: each round has its network, and the context's error if it ends before the next
-- one. The list ends where nothing more has happened: `none` is a wait.
unfoldable pub connect_until_available :
    List (Network × Option ContextError) → Manager → Manager × Option (Option ManagerError)
connect_until_available [] m = (m, none)
connect_until_available ((network, ended) ∷ rounds) m =
    let (m', connected) = connect network m in
    let later = connect_until_available rounds m' in
    if connected
    then (m', some none)
    else elim ended [ none ↦ later | some e ↦ (m', some (some (of_context e))) ]

-- `NewConnectionManager`, up to the start of `run`.
unfoldable pub new_connection_manager :
    List (Network × Option ContextError) → List Text → Option (Result ManagerError Manager)
unfolding connect_until_available new_manager
new_connection_manager rounds [] = some (err no_broker_available)
new_connection_manager rounds (endpoint ∷ endpoints) =
    let (m, result) = connect_until_available rounds (new_manager (endpoint ∷ endpoints)) in
    elim result [ none ↦ none | some none ↦ some (ok m) | some (some e) ↦ some (err e) ]
