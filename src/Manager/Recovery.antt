-- ===== src/Manager/Recovery.antt =====
-- transport/tcp/connection_manager.go: `run`, `watch` and `reconnect`, which keep the manager connected.
use distributed_event_bus.Prelude.{
  ℕ, ◌*◌, Bool, true, false, List, [], ◌∷◌, ◌++◌, Text, Option, none, some, length, ltb, ◌==◌,
  if◌then◌else◌,
}
use distributed_event_bus.Broker.Event.{Event}
use distributed_event_bus.Manager.Endpoints.{
  Manager, Network, connect, prefer, events_capacity, shutdowns_capacity,
}

-- What a round of the loop of `reconnect` finds: whether `done` is closed at its start, the network, and
-- whether `done` is closed before the time is over.
pub record Try : Type 0 where
  pub closed_before : Bool
  pub network : Network
  pub closed_after : Bool

pub data Reconnected : Type 0 where
  connected stopped still_trying : Reconnected

-- Times are in milliseconds.
abbrev pub first_delay : ℕ
first_delay = 100

unfoldable pub next_delay : ℕ → ℕ
next_delay delay = if ltb delay 5000 then delay * 2 else delay

-- `reconnect`: how it ends, and the times that it has waited. The list ends where nothing more has
-- happened.
unfoldable pub reconnect : List Try → ℕ → Manager → Manager × (Reconnected × List ℕ)
unfolding next_delay
reconnect [] delay m = (m, (still_trying, []))
reconnect (try ∷ tries) delay m =
    let (m', found) = connect try.network m in
    let (m'', (result, delays)) = reconnect tries (next_delay delay) m' in
    if try.closed_before
    then (m, (stopped, []))
    else if found
    then (m', (connected, []))
    else if try.closed_after
    then (m', (stopped, delay ∷ []))
    else (m'', (result, delay ∷ delays))

-- What the `select` of `watch` takes: an event with whether `done` is taken where the manager's channel
-- is full or Go chooses so, the end of the client's events or its `Done`, each with what `Shutdowns` then
-- gives, a shutdown or the end of those, or the end of the manager.
pub data Observed : Type 0 where
  event_comes : Event → Bool → Observed
  events_end : Option Text → Observed
  shutdown_comes : Option Text → Observed
  client_done : Option Text → Observed
  manager_done : Observed

-- How `watch` ends: with its two results, or it waits.
pub data Watched : Type 0 where
  watched : Text → Bool → Watched
  watching : Watched

-- `redirect, ok := <-client.Shutdowns()`
unfoldable pub by_shutdown : Option Text → Watched
by_shutdown (some redirect) = watched redirect true
by_shutdown none = watched [] false

unfoldable pub watch : List Observed → Manager → Manager × Watched
unfolding by_shutdown
watch [] m = (m, watching)
watch (event_comes event take_done ∷ rest) m =
    let on = watch rest (record m { events = m.events ++ (event ∷ []) }) in
    if take_done
    then (m, watched [] false)
    else if ltb (length m.events) events_capacity
    then on
    else (m, watching)
watch (events_end shutdown ∷ rest) m = (m, by_shutdown shutdown)
watch (shutdown_comes shutdown ∷ rest) m = (m, by_shutdown shutdown)
watch (client_done shutdown ∷ rest) m = (m, by_shutdown shutdown)
watch (manager_done ∷ rest) m = (m, watched [] false)

-- The part of `run` between `watch` and `reconnect`: the redirect is preferred, and announced if
-- `shutdowns` has room, and the client is given up. `current` is only written here and by `Close`, so that
-- it is that client or none.
unfoldable pub give_up : Text → Bool → Manager → Manager
give_up redirect graceful m =
    let m1 =
      if graceful
      then (if length redirect == 0
          then m
          else (let p = prefer redirect m in
              if ltb (length m.shutdowns) shutdowns_capacity
              then record p { shutdowns = m.shutdowns ++ (redirect ∷ []) }
              else p))
      else m in
    record m1 { current = none }

-- What `run` makes of the end of `reconnect`: whether its loop goes on, or `none` where it waits.
unfoldable pub resume : Manager × (Reconnected × List ℕ) → Manager × Option Bool
resume (m, (connected, _)) = (m, some true)
resume (m, (stopped, _)) = (m, some false)
resume (m, (still_trying, _)) = (m, none)

-- What it makes of the end of `watch`.
unfoldable pub recover : List Try → Manager × Watched → Manager × Option Bool
unfolding give_up reconnect resume
recover tries (m, watching) = (m, none)
recover tries (m, watched redirect graceful) =
    resume (reconnect tries first_delay (give_up redirect graceful m))

-- One round of the loop of `run`.
unfoldable pub run_round : List Observed → List Try → Manager → Manager × Option Bool
unfolding watch recover resume reconnect
run_round observed tries m = elim m.current [
  | none ↦ resume (reconnect tries first_delay m)
  | some client ↦ recover tries (watch observed m)
]
