-- ===== src/Commands/EventBusLaws.antt =====
-- The shutdown of the process.
use distributed_event_bus.Prelude.{
  ℕ, Bool, ◌≢◌, arith, if◌then◌else◌, ◌≡◌, refl, sym, subst, ap, ◌∙◌, inl, inr, true, false, List,
  [], ◌∷◌, Text, Bool-cases, Option, none, some, arith,
}
use distributed_event_bus.Broker.State.{Broker, Config, begin_shutdown}
use distributed_event_bus.Broker.Publish.{Wakeup}
use distributed_event_bus.Broker.Publish
use distributed_event_bus.Broker.Openness.{IsOpenAt}
use distributed_event_bus.Broker.Invariant.Defs.{IsRange}
use distributed_event_bus.Broker.Invariant.Closing.{closed_form}
use distributed_event_bus.Server.State.{Server}
use distributed_event_bus.Server.Lifecycle.{
  Ending, begin_graceful, close_gracefully, graceful_shutdown,
}
use distributed_event_bus.Server.Steps.{IsOrder, Reach}
use distributed_event_bus.Server.Ownership.{IsOwned}
use distributed_event_bus.Server.OwnershipClosings.{
  close-shuts, begin_graceful_form, begin_graceful-IsOwned,
}
use distributed_event_bus.Server.Reach.{Reach-IsOwned}
use distributed_event_bus.Commands.EventBus.{
  Process, World, Request, asks_state, asks_shutdown, interrupts, any_waits, trigger_shutdown,
  handle, handle_shutdown, handle_all, main_end, main_stops, main_runs,
}
use distributed_event_bus.Commands.Endings.{times_out, Closed, close_gracefully-Closed}

graceful_shutdown_done :
    (visit visit_conns : List ℕ → List ℕ) (world : ℕ → List Wakeup) (finishes : ℕ → Bool)
    (redirect : Text) (s : Server)
    → s.closed ≡ true
    → graceful_shutdown visit visit_conns world finishes redirect s ≡ (s, [])
unfolding graceful_shutdown
graceful_shutdown_done visit visit_conns world finishes redirect s done = ground arith

graceful_shutdown_form :
    (visit visit_conns : List ℕ → List ℕ) (world : ℕ → List Wakeup) (finishes : ℕ → Bool)
    (redirect : Text) (s : Server)
    → s.closed ≡ false
    → graceful_shutdown visit visit_conns world finishes redirect s
      ≡ close_gracefully visit world finishes redirect
          (visit_conns s.conns)
          (begin_graceful visit_conns s)
unfolding graceful_shutdown
graceful_shutdown_form visit visit_conns world finishes redirect s live = ground arith

graceful_shutdown-Closed :
    (visit visit_conns : List ℕ → List ℕ) (world : ℕ → List Wakeup) (finishes : ℕ → Bool)
    (redirect : Text) (s : Server)
    → IsOrder visit
    → ((i : ℕ) → finishes i ≡ true)
    → ((r : ℕ) → times_out (world r) ≡ true)
    → IsOwned s
    → Closed s (graceful_shutdown visit visit_conns world finishes redirect s)
graceful_shutdown-Closed visit visit_conns world finishes redirect s order all late owned =
    elim (Bool-cases s.closed) [
      | inl done ↦
          subst (Closed s)
            (sym (graceful_shutdown_done visit visit_conns world finishes redirect s done))
            (record { owned = owned; same_closed = refl; ended = unfold any_waits in refl })
      | inr live ↦
          let form = begin_graceful_form visit_conns s live in
          let k =
            close_gracefully-Closed visit world finishes redirect (visit_conns s.conns)
              (begin_graceful visit_conns s) order all late (ap (λ (x : Server). x.draining) form)
              (begin_graceful-IsOwned visit_conns s owned) in
          subst (Closed s)
            (sym (graceful_shutdown_form visit visit_conns world finishes redirect s live))
            (record {
              owned = k.owned;
              same_closed =
                  k.same_closed
                  ∙ ap (λ (x : Server). x.broker.closed) form
                  ∙ (unfold begin_shutdown in refl);
              ended = k.ended;
            })
    ]

-- The shutdown of a process, in its first call.
abbrev shuts : World → Text → Process → Server × List Ending
shuts world redirect p =
    graceful_shutdown world.visit world.visit_conns world.wakeups world.finishes redirect p.server

trigger_shutdown_form :
    (world : World) (redirect : Text) (p : Process)
    → p.once_done ≡ false
    → any_waits (shuts world redirect p).1 ≡ false
    → trigger_shutdown world redirect p ≡ record p {
      server = record (shuts world redirect p).0 {
        broker = Publish.close world.choices (shuts world redirect p).0.broker;
      };
      once_done = true;
      admin_closed = true;
      shutdown_done = if world.admin_ends then true else p.shutdown_done;
    }
unfolding trigger_shutdown
trigger_shutdown_form world redirect p first ended = rw (first, ended) refl

trigger_shutdown_again :
    (world : World) (redirect : Text) (p : Process)
    → p.once_done ≡ true
    → trigger_shutdown world redirect p ≡ p
unfolding trigger_shutdown
trigger_shutdown_again world redirect p done = rw done refl

-- What a request leaves of a process that is shut down.
record Unchanged (p p' : Process) : Type 0 where
  same_server : p'.server ≡ p.server
  still_done : p'.once_done ≡ true
  same_end : p'.shutdown_done ≡ p.shutdown_done

trigger_shutdown-Unchanged :
    (world : World) (redirect : Text) (p : Process)
    → p.once_done ≡ true
    → Unchanged p (trigger_shutdown world redirect p)
trigger_shutdown-Unchanged world redirect p done =
    rw (trigger_shutdown_again world redirect p done)
      (record { same_server = refl; still_done = done; same_end = refl })

handle-Unchanged :
    (world : World) (request : Request) (p : Process)
    → p.once_done ≡ true
    → Unchanged p (handle world request p).0
unfolding handle
handle-Unchanged world (asks_state method) p done = record {
  same_server = refl;
  still_done = done;
  same_end = refl;
}
handle-Unchanged world (asks_shutdown method redirect) p done =
    by_start (handle_shutdown method redirect p).1
  where
    by_start :
        (started : Option Text)
        → Unchanged p (elim started [ none ↦ p | some address ↦ trigger_shutdown world address p ])
    by_start none = record { same_server = refl; still_done = done; same_end = refl }
    by_start (some address) = trigger_shutdown-Unchanged world address p done
handle-Unchanged world interrupts p done = elim (Bool-cases p.stop_read) [
  | inl e ↦ rw e (record { same_server = refl; still_done = done; same_end = refl })
  | inr e ↦
      let k = trigger_shutdown-Unchanged world p.redirect (record p { stop_read = true }) done in
      rw e
        (record { same_server = k.same_server; still_done = k.still_done; same_end = k.same_end })
]

handle_all-Unchanged :
    (world : World) (requests : List Request) (p : Process)
    → p.once_done ≡ true
    → Unchanged p (handle_all world requests p)
unfolding handle_all
handle_all-Unchanged world [] p done = record {
  same_server = refl;
  still_done = done;
  same_end = refl;
}
handle_all-Unchanged world (request ∷ requests) p done =
    let first = handle-Unchanged world request p done in
    let k = handle_all-Unchanged world requests (handle world request p).0 first.still_done in
    record {
      same_server = k.same_server ∙ first.same_server;
      still_done = k.still_done;
      same_end = k.same_end ∙ first.same_end;
    }

main_end_timer :
    (take_timer : Bool) (p : Process) → main_end (some false) true take_timer p ≢ main_runs
unfolding main_end
main_end_timer take_timer p q = ground arith

-- The first shutdown of a process, whose server has any history and whose bus is not closed, ends if the
-- context of the shutdown ends, if the last deliveries and the SHUTDOWN frame of each connection that is
-- drained get through, and if the control server ends its requests. Then no subscription is open, the bus
-- is closed and has no topics, and `main` stops once `ListenAndServe` has returned without an error. Requests
-- and signals that come later leave the server and the bus as they are. Without those conditions the
-- shutdown may wait, but `main` does not: once `ListenAndServe` has returned and its timer has fired, it
-- ends.
pub trigger_shutdown-stops :
    {config : Config} (world : World) (redirect : Text) (p : Process)
    → IsOrder world.visit
    → IsRange world.choices
    → ((r : ℕ) → times_out (world.wakeups r) ≡ true)
    → ((i : ℕ) → world.finishes i ≡ true)
    → world.admin_ends ≡ true
    → Reach config p.server
    → p.server.broker.closed ≡ false
    → p.once_done ≡ false
    → let p' = trigger_shutdown world redirect p in
      ((r : ℕ) (topic : Text) → IsOpenAt p'.server.broker.heap r topic → ⊥)
      × (p'.server.broker.closed ≡ true)
      × (p'.server.broker.topics ≡ [])
      × (p'.admin_closed ≡ true)
      × (p'.shutdown_done ≡ true)
      × (main_end (some false) false false p' ≡ main_stops)
      × ((world' : World) (take_timer : Bool)
          → main_end (some false) true take_timer (trigger_shutdown world' redirect p) ≢ main_runs)
      × ((world' : World) (later : List Request) → (handle_all world' later p').server ≡ p'.server)
trigger_shutdown-stops world redirect p order range late all admin reach live first =
    let k =
      graceful_shutdown-Closed world.visit world.visit_conns world.wakeups world.finishes redirect
        p.server order all late (Reach-IsOwned reach) in
    let b = (shuts world redirect p).0.broker in
    let still : b.closed ≡ false = k.same_closed ∙ live in
    let form = closed_form world.choices b still in
    rw (trigger_shutdown_form world redirect p first k.ended, admin)
      (
        λ r topic o. close-shuts world.choices b r topic range k.owned.sound still o,
        ap (λ (x : Broker). x.closed) form,
        ap (λ (x : Broker). x.topics) form,
        refl,
        refl,
        unfold main_end in refl,
        λ world' take_timer. main_end_timer take_timer (trigger_shutdown world' redirect p),
        λ world' later. (handle_all-Unchanged world' later _ refl).same_server,
      )
