-- ===== src/Commands/EventBus.antt =====
-- cmd/event-bus/main.go: the process that serves the bus, with its flags, its HTTP endpoints and its
-- shutdown. Flags are parsed and requests are read by Go's packages.
use distributed_event_bus.Prelude.{
  ℕ, Bool, ◌&&◌, true, false, List, [], ◌∷◌, Text, Option, none, some, length, ◌==◌, text_eq,
  if◌then◌else◌,
}
use distributed_event_bus.Broker.State.{
  Broker, BackpressurePolicy, block, drop, ℤ, Config, new, state,
}
use distributed_event_bus.Broker.State
use distributed_event_bus.Broker.Publish.{Choices, Wakeup}
use distributed_event_bus.Broker.Publish
use distributed_event_bus.Logging.Logger.{parse_level}
use distributed_event_bus.Server.State.{Server, new_server, server_state}
use distributed_event_bus.Server.State as Serving
use distributed_event_bus.Server.Lifecycle.{Ending, ends, still_waits, graceful_shutdown}

-- The flags that bear on the bus.
pub record Flags : Type 0 where
  pub queue_size : ℤ
  pub cache_size : ℤ
  pub deduplication_size : ℤ
  pub drop_events : Bool
  pub redirect : Text
  pub log_level : Text

-- The policy that `-drop` chooses.
unfoldable pub policy_of : Bool → BackpressurePolicy
policy_of drop_events = if drop_events then drop else block

-- "drop"
abbrev pub drop_name : Text
drop_name = 100 ∷ 114 ∷ 111 ∷ 112 ∷ []

-- "block"
abbrev pub block_name : Text
block_name = 98 ∷ 108 ∷ 111 ∷ 99 ∷ 107 ∷ []

-- `policyName`
unfoldable pub policy_name : BackpressurePolicy → Text
policy_name drop = drop_name
policy_name block = block_name

-- The argument of `broker.New`.
unfoldable pub config_of : Flags → Config
unfolding policy_of
config_of flags = record {
  queue_size = flags.queue_size;
  cache_size = flags.cache_size;
  deduplication_size = flags.deduplication_size;
  backpressure = policy_of flags.drop_events;
}

-- `once_done` is the state of `shutdownOnce`. `stop_read` says whether a signal has been taken from
-- `stop`, `admin_closed` whether `admin.Shutdown` was called, `shutdown_done` whether the channel
-- `shutdownDone` is closed. The bus is the server's broker.
pub record Process : Type 0 where
  pub server : Server
  pub redirect : Text
  pub once_done : Bool
  pub stop_read : Bool
  pub admin_closed : Bool
  pub shutdown_done : Bool

-- The start of `main`, where an invalid log level is a panic.
unfoldable pub start : (Text → Text) → Flags → Option Process
unfolding config_of
start unicode_lower flags =
    if (parse_level unicode_lower flags.log_level).1
    then some (record {
      server = new_server (new (config_of flags));
      redirect = flags.redirect;
      once_done = false;
      stop_read = false;
      admin_closed = false;
      shutdown_done = false;
    })
    else none

-- A call of `gracefulClose` has not returned.
unfoldable pub any_waits : List Ending → Bool
any_waits [] = false
any_waits (ends _ ∷ endings) = any_waits endings
any_waits (still_waits ∷ endings) = true

-- "GET"
abbrev pub method_get : Text
method_get = 71 ∷ 69 ∷ 84 ∷ []

-- "POST"
abbrev pub method_post : Text
method_post = 80 ∷ 79 ∷ 83 ∷ 84 ∷ []

-- What a client of the control server gets: status 405, the two snapshots, or status 202.
pub data Response : Type 0 where
  method_not_allowed : Response
  shows : Serving.Snapshot → State.Snapshot → Response
  shutdown_started : Response

-- The handler of `/state`.
unfoldable pub handle_state : Text → Process → Response
handle_state method p =
    if text_eq method method_get
    then shows (server_state p.server) (state p.server.broker)
    else method_not_allowed

-- The handler of `/shutdown`, with the value of `redirect` in the query: what it answers, and the
-- redirect with which it starts `triggerShutdown`.
unfoldable pub handle_shutdown : Text → Text → Process → Response × Option Text
handle_shutdown method redirect p =
    if text_eq method method_post
    then (shutdown_started, some (if length redirect == 0 then p.redirect else redirect))
    else (method_not_allowed, none)

-- What reaches the process.
pub data Request : Type 0 where
  asks_state : Text → Request
  asks_shutdown : Text → Text → Request
  interrupts : Request

-- What Go and the readers leave open in a shutdown: the orders of the `range`s, the choices of the
-- broker, for each subscription what happens while it is drained, for each connection whether its last
-- deliveries and the SHUTDOWN frame get through, and whether `admin.Shutdown` returns, which waits for the
-- requests that it is answering.
pub record World : Type 0 where
  pub visit : List ℕ → List ℕ
  pub visit_conns : List ℕ → List ℕ
  pub choices : Choices
  pub wakeups : ℕ → List Wakeup
  pub finishes : ℕ → Bool
  pub admin_ends : Bool

module _ (world : World) where
  -- `triggerShutdown`. What `shutdownOnce` guards runs to its end, or waits in `GracefulShutdown` or in
  -- `admin.Shutdown`.
  unfoldable pub trigger_shutdown : Text → Process → Process
  unfolding any_waits
  trigger_shutdown redirect p =
      if p.once_done
      then p
      else (let (s, endings) =
            graceful_shutdown world.visit world.visit_conns world.wakeups world.finishes redirect
              p.server in
          if any_waits endings then record p { server = s; once_done = true } else record p {
            server = record s { broker = Publish.close world.choices s.broker };
            once_done = true;
            admin_closed = true;
            shutdown_done = if world.admin_ends then true else p.shutdown_done;
          })

  -- One request or signal. Only the first signal is read from `stop`.
  unfoldable pub handle : Request → Process → Process × Option Response
  unfolding trigger_shutdown handle_state handle_shutdown
  handle (asks_state method) p = (p, some (handle_state method p))
  handle (asks_shutdown method redirect) p =
      let (response, started) = handle_shutdown method redirect p in
      (elim started [ none ↦ p | some address ↦ trigger_shutdown address p ], some response)
  handle interrupts p =
      if p.stop_read
      then (p, none)
      else (trigger_shutdown p.redirect (record p { stop_read = true }), none)

  -- One after another.
  unfoldable pub handle_all : List Request → Process → Process
  unfolding handle
  handle_all [] p = p
  handle_all (request ∷ requests) p = handle_all requests (handle request p).0

-- Where `main` stands after its last line that starts something.
pub data MainEnd : Type 0 where
  main_fails main_stops main_times_out main_runs : MainEnd

-- The end of `main`, with whether `ListenAndServe` has returned an error, if it has returned, whether
-- `time.After` has fired, and whether the `select` takes that case where both are ready.
unfoldable pub main_end : Option Bool → Bool → Bool → Process → MainEnd
main_end none timer take_timer p = main_runs
main_end (some true) timer take_timer p = main_fails
main_end (some false) timer take_timer p =
    if p.shutdown_done
    then (if timer && take_timer then main_times_out else main_stops)
    else if timer
    then main_times_out
    else main_runs
