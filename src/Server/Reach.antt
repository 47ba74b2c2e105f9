-- ===== src/Server/Reach.antt =====
-- Histories of a server: what holds after any sequence of its steps.
use distributed_event_bus.Prelude.{
  ℕ, ◌≡◌, refl, sym, ap, ◌∙◌, true, false, List, [], ◌∷◌, Text, Map, All, contains, nat_key,
  text_key, arith, contains-Perm,
}
use distributed_event_bus.Broker.State.{Broker, Config, new}
use distributed_event_bus.Broker.Subscription.{receive}
use distributed_event_bus.Broker.Publish
use distributed_event_bus.Broker.Openness.{IsOpenAt, receive-standings}
use distributed_event_bus.Broker.Invariant.Defs.{IsTopic, standings}
use distributed_event_bus.Broker.Invariant.Calls.{new-IsSound, receive-IsSound}
use distributed_event_bus.Broker.Invariant.Closing.{close-IsSound}
use distributed_event_bus.Server.State.{Connection, Server, new_server}
use distributed_event_bus.Server.Requests.{await_ack, forget_ack, take_ack}
use distributed_event_bus.Server.Lifecycle.{abort, close_connections, close_server}
use distributed_event_bus.Server.Steps.{
  IsOrder, Step, accepts, reads, awaits, forgets, takes, receives, hangs_up, closes,
  begins_graceful, closes_gracefully, closes_broker, Reach, starts, goes_on,
}
use distributed_event_bus.Server.Closings.{standings-opens}
use distributed_event_bus.Server.Ownership.{IsOwned, broker-IsOwned}
use distributed_event_bus.Server.OwnershipSteps.{same_subs-IsOwned, handle_frame-IsOwned}
use distributed_event_bus.Server.OwnershipMoves.{
  graceful_close-IsOwned, accept-IsOwned, hang_up-IsOwned,
}
use distributed_event_bus.Server.Served.{
  IsServed, closed-IsServed, serving, update-IsServed, remove-IsServed, accept-IsServed,
  handle_frame-IsServed, close_server-IsServed, begin_graceful-IsServed,
}
use distributed_event_bus.Server.ServerClose.{
  close_connections-Shuts, close_server_form, as_closed, close_connections-as_closed,
}
use distributed_event_bus.Server.OwnershipClosings.{
  close_server-IsOwned, close-opens, begin_graceful-IsOwned,
}

take_ack-Keeps :
    (channel : ℕ) (c : Connection)
    → ((take_ack channel c).0.subs ≡ c.subs)
      × ((take_ack channel c).0.closed ≡ c.closed)
      × ((take_ack channel c).0.draining ≡ c.draining)
unfolding take_ack
take_ack-Keeps channel c = ground arith

new_server-IsOwned : (config : Config) → IsOwned (new_server (new config))
unfolding new_server
new_server-IsOwned config = record {
  sound = new-IsSound config;
  owners = λ r topic o. absurd (unfold new in cc (o.stands));
  drains = λ i c found shut. absurd (cc (found));
}

Step-IsOwned : {s s' : Server} → Step s s' → IsServed s → IsOwned s → IsOwned s'
Step-IsOwned {s} accepts served owned = accept-IsOwned s owned
Step-IsOwned {s} (reads network_text choices frame i c range few at) served owned =
    handle_frame-IsOwned network_text choices frame s i c range few owned at
      (serving s i c served at.found at.listed)
Step-IsOwned {s} (awaits id i c g) served owned =
    same_subs-IsOwned s i c (await_ack id c) s.broker owned g owned.sound (unfold await_ack in refl)
      (unfold await_ack in refl) (unfold await_ack in owned.drains i c g) (λ r topic o. o)
Step-IsOwned {s} (forgets id i c g) served owned =
    same_subs-IsOwned s i c (forget_ack id c) s.broker owned g owned.sound
      (unfold forget_ack in refl) (unfold forget_ack in refl)
      (unfold forget_ack in owned.drains i c g) (λ r topic o. o)
Step-IsOwned {s} (takes channel i c g) served owned =
    let (subs, closed, draining) = take_ack-Keeps channel c in
    same_subs-IsOwned s i c (take_ack channel c).0 s.broker owned g owned.sound subs closed
      (λ d. owned.drains i c g (sym draining ∙ d)) (λ r topic o. o)
Step-IsOwned {s} (receives r) served owned =
    broker-IsOwned s (receive r s.broker).0 owned (receive-IsSound r s.broker owned.sound)
      (λ q topic o.
        standings-opens s.broker (receive r s.broker).0 q topic (receive-standings r s.broker) o)
Step-IsOwned {s} (hangs_up visit i c order at) served owned =
    hang_up-IsOwned visit s i c order owned at.found
Step-IsOwned {s} (closes visit visit_conns order _) served owned =
    close_server-IsOwned visit visit_conns s order owned
Step-IsOwned {s} (begins_graceful visit_conns) served owned =
    begin_graceful-IsOwned visit_conns s owned
Step-IsOwned {s} (closes_gracefully visit world finishes redirect i c order draining g) served
      owned =
    graceful_close-IsOwned visit world finishes redirect s i c order draining owned g
Step-IsOwned {s} (closes_broker choices range) served owned =
    broker-IsOwned s (Publish.close choices s.broker) owned
      (close-IsSound choices s.broker range owned.sound)
      (λ r topic o. close-opens choices s.broker r topic range owned.sound o)

new_server-IsServed : (config : Config) → IsServed (new_server (new config))
unfolding new_server
new_server-IsServed config = record {
  shuts = λ i c found. absurd (cc (found));
  ends = λ e. absurd (cc);
}

Step-IsServed : {s s' : Server} → Step s s' → IsOwned s → IsServed s → IsServed s'
Step-IsServed {s} accepts owned served = accept-IsServed s served
Step-IsServed {s} (reads network_text choices frame i c range few at) owned served =
    handle_frame-IsServed network_text choices frame s i c range owned.sound served at.found
Step-IsServed {s} (awaits id i c g) owned served =
    update-IsServed s i c (await_ack id c) s.broker served g (unfold await_ack in refl)
Step-IsServed {s} (forgets id i c g) owned served =
    update-IsServed s i c (forget_ack id c) s.broker served g (unfold forget_ack in refl)
Step-IsServed {s} (takes channel i c g) owned served =
    update-IsServed s i c (take_ack channel c).0 s.broker served g (take_ack-Keeps channel c).1
Step-IsServed {s} (receives r) owned served = record { shuts = served.shuts; ends = served.ends }
Step-IsServed {s} (hangs_up visit i c order at) owned served =
    remove-IsServed s i (abort visit s.draining c s.broker).0 (abort visit s.draining c s.broker).1
      served
Step-IsServed {s} (closes visit visit_conns order _) owned served =
    close_server-IsServed visit visit_conns s
Step-IsServed {s} (begins_graceful visit_conns) owned served = begin_graceful-IsServed visit_conns s
Step-IsServed {s} (closes_gracefully visit world finishes redirect i c order draining g) owned
      served =
    closed-IsServed _ (served.ends draining)
Step-IsServed {s} (closes_broker choices range) owned served = record {
  shuts = served.shuts;
  ends = served.ends;
}

Reach-both : {config : Config} {s : Server} → Reach config s → IsOwned s × IsServed s
Reach-both {config} starts = (new_server-IsOwned config, new_server-IsServed config)
Reach-both (goes_on r st) =
    let (owned, served) = Reach-both r in
    (Step-IsOwned st served owned, Step-IsServed st owned served)

-- After any history of a server on a new broker that makes fewer than 2 ^ 64 - 1 subscriptions, with
-- connections that come and go, deliveries, and frames in any order, also those that were read before
-- their connection was closed and are handled behind that, and with every kind of end, the broker
-- is sound, and every open subscription belongs to a connection that has it under its topic. That
-- connection is not closed, unless the server is; and if it is not closed, the server still serves it,
-- unless there is a graceful shutdown.
pub Reach-IsOwned : {config : Config} {s : Server} → Reach config s → IsOwned s
Reach-IsOwned r = (Reach-both r).0

-- A topic has an open subscription.
no_topics :
    (b : Broker)
    → ((r : ℕ) (topic : Text) → IsOpenAt b.heap r topic → ⊥)
    → (topics : Map Text (Map ℕ ℕ)) → All (IsTopic (standings b.heap)) topics
    → topics ≡ []
no_topics b nothing [] h = refl
no_topics b nothing ((topic, []) ∷ topics) h = absurd (omega (arith, h.0.inhabited))
no_topics b nothing ((topic, (id, r) ∷ subs) ∷ topics) h =
    absurd (nothing r topic (record { open_id = id; stands = h.0.entries.0.found }))

-- After any history of a server that was not closed before, `Server.Close` leaves no subscription open
-- and no topic in the broker, in whatever order it visits the connections and their subscriptions.
pub close_server-releases :
    {config : Config} {s : Server} (visit visit_conns : List ℕ → List ℕ)
    → IsOrder visit
    → IsOrder visit_conns
    → Reach config s
    → s.closed ≡ false
    → s.draining ≡ false
    → let s' = close_server visit visit_conns s in
      ((r : ℕ) (topic : Text) → IsOpenAt s'.broker.heap r topic → ⊥) × (s'.broker.topics ≡ [])
close_server-releases {s = s} visit visit_conns order order_conns reach live open' =
    let owned = Reach-IsOwned reach in
    let k = close_connections-Shuts visit (visit_conns s.conns) s order owned in
    let s' = close_connections visit (visit_conns s.conns) s in
    let form : close_server visit visit_conns s ≡ as_closed s' =
      close_server_form visit visit_conns s live
      ∙ close_connections-as_closed visit (visit_conns s.conns) s in
    let nothing : (r : ℕ) (topic : Text) → IsOpenAt s'.broker.heap r topic → ⊥ = λ r topic o.
      let w = k.owned.owners r topic o in
      let alive = w.alive (k.still_closed ∙ live) in
      let listed : contains w.index (visit_conns s.conns) ≡ true =
        contains-Perm w.index (visit_conns s.conns) s.conns (order_conns s.conns)
        ∙ ap (contains w.index) (sym k.conns)
        ∙ w.listed alive (k.draining ∙ open') in
      cc (k.shuts w.index listed w.owner w.found, alive) in
    rw form (nothing, no_topics s'.broker nothing s'.broker.topics k.owned.sound.layout.routes)
