-- ===== src/Server/Served.antt =====
-- As long as the server is not closed, no connection that it serves is closed.
use distributed_event_bus.Prelude.{
  ℕ, ◌≡◌, refl, sym, ap, ◌∙◌, inl, inr, true, false, List, Text, some, length, get_elem?, set,
  contains, remove, nat_key, nat_eq, nat_eq_iff, arith, Bool-cases, contains-add, contains-remove,
  get_elem?-set_ne,
}
use distributed_event_bus.Broker.State.{Broker}
use distributed_event_bus.Broker.Publish.{Choices}
use distributed_event_bus.Broker.Openness.{last-or_before}
use distributed_event_bus.Broker.Invariant.Defs.{IsSound, IsRange}
use distributed_event_bus.Broker.Invariant.Standings.{get_elem?-lt}
use distributed_event_bus.Protocol.Frame.{Frame}
use distributed_event_bus.Server.State.{
  Connection, Server, accept, remove_connection, new_connection,
}
use distributed_event_bus.Server.Requests.{handle_frame}
use distributed_event_bus.Server.Lifecycle.{close_server, begin_graceful}
use distributed_event_bus.Server.Steps.{update}
use distributed_event_bus.Server.Changes.{
  Changes, quiet, subscribed, unsubscribed, handle_frame-Changes,
}
use distributed_event_bus.Server.OwnershipMoves.{update-found, accept_closed, accept_open}
use distributed_event_bus.Server.ServerClose.{
  close_server_done, close_server_form, close_connections-as_closed,
}
use distributed_event_bus.Server.OwnershipClosings.{begin_graceful_done, begin_graceful_form}

pub record IsServed (s : Server) : Type 0 where
  pub shuts :
      (i : ℕ) (c : Connection)
      → get_elem? s.connections i ≡ some c
      → contains i s.conns ≡ true
      → c.closed ≡ true
      → s.closed ≡ true
  pub ends : s.draining ≡ true → s.closed ≡ true

pub closed-IsServed : (s : Server) → s.closed ≡ true → IsServed s
closed-IsServed s h = record { shuts = λ _ _ _ _ _. h; ends = λ _. h }

pub serving :
    (s : Server) (i : ℕ) (c : Connection)
    → IsServed s
    → get_elem? s.connections i ≡ some c
    → contains i s.conns ≡ true
    → s.closed ≡ false
    → c.closed ≡ false
serving s i c served g listed live = elim (Bool-cases c.closed) [
  | inl shut ↦ absurd (cc (served.shuts i c g listed shut, live))
  | inr open' ↦ open'
]

pub update-IsServed :
    (s : Server) (i : ℕ) (c c' : Connection) (b' : Broker)
    → IsServed s
    → get_elem? s.connections i ≡ some c
    → c'.closed ≡ c.closed
    → IsServed (update i (c', b') s)
update-IsServed s i c c' b' served g same = record {
  shuts = λ j d found listed shut. elim (Bool-cases (nat_eq i j)) [
    | inl e ↦
        let q : i ≡ j = (nat_eq_iff i j).0 e in
        let one = update-found s i c c' d g (ap (get_elem? (set s.connections i c')) q ∙ found) in
        served.shuts i c g (ap (λ n. contains n s.conns) q ∙ listed)
          (sym same ∙ ap (λ (x : Connection). x.closed) (sym one) ∙ shut)
    | inr other ↦
        served.shuts j d
          (sym (get_elem?-set_ne s.connections i j c' (λ q. cc (other, (nat_eq_iff i j).1 q)))
            ∙ found)
          listed shut
  ];
  ends = served.ends;
}

-- A connection whose `serve` returns is not served any more, in whatever state it is.
pub remove-IsServed :
    (s : Server) (i : ℕ) (c' : Connection) (b' : Broker)
    → IsServed s
    → IsServed (remove_connection i (update i (c', b') s))
unfolding remove_connection
remove-IsServed s i c' b' served = record {
  shuts = λ j d found listed shut. elim (Bool-cases (nat_eq i j)) [
    | inl e ↦ absurd (cc (listed, gone i j s.conns e))
    | inr other ↦
        served.shuts j d
          (sym (get_elem?-set_ne s.connections i j c' (λ q. cc (other, (nat_eq_iff i j).1 q)))
            ∙ found)
          (still i j s.conns other ∙ listed) shut
  ];
  ends = served.ends;
}
  where
    gone : (i j : ℕ) (xs : List ℕ) → nat_eq i j ≡ true → contains j (remove i xs) ≡ false
    gone i j xs e = contains-remove i j xs ∙ rw e refl

    still : (i j : ℕ) (xs : List ℕ) → nat_eq i j ≡ false → contains j xs ≡ contains j (remove i xs)
    still i j xs e = sym (contains-remove i j xs ∙ rw e refl)

pub accept-IsServed : (s : Server) → IsServed s → IsServed (accept s)
unfolding new_connection
accept-IsServed s served = elim (Bool-cases s.closed) [
  | inl shut ↦ rw (accept_closed s shut) (closed-IsServed _ shut)
  | inr live ↦ rw (accept_open s live) (record {
    shuts = λ i d found listed shut. elim (last-or_before s.connections new_connection d i found) [
      | inl (_, same) ↦ absurd (cc (same, shut))
      | inr before ↦
          served.shuts i d before
            (ground (
              arith,
              contains-add (length s.connections) i s.conns,
              listed,
              nat_eq_iff (length s.connections) i,
              get_elem?-lt s.connections i d before,
            ))
            shut
    ];
    ends = served.ends;
  })
]

Changes-closed : (c c' : Connection) (b b' : Broker) → Changes c b c' b' → c'.closed ≡ c.closed
Changes-closed c c' b b' (quiet _ closed _ _ _) = closed
Changes-closed c c' b b' (subscribed t id b1 e grown p q) = ap (λ (x : Connection). x.closed) p
Changes-closed c c' b b' (unsubscribed t p q) = ap (λ (x : Connection). x.closed) p

pub handle_frame-IsServed :
    (network_text : ℕ → Text) (choices : Choices) (frame : Frame) (s : Server) (i : ℕ)
    (c : Connection)
    → IsRange choices
    → IsSound s.broker
    → IsServed s
    → get_elem? s.connections i ≡ some c
    → IsServed (update i (handle_frame network_text choices s.draining frame c s.broker).0 s)
handle_frame-IsServed network_text choices frame s i c range sound served g =
    update-IsServed s i c _ _ served g (
      Changes-closed c _ s.broker _
        (handle_frame-Changes c s.broker sound network_text choices s.draining frame range))

pub close_server-IsServed :
    (visit visit_conns : List ℕ → List ℕ) (s : Server) → IsServed (close_server visit visit_conns s)
close_server-IsServed visit visit_conns s = closed-IsServed _ (elim (Bool-cases s.closed) [
  | inl done ↦ ap (λ (x : Server). x.closed) (close_server_done visit visit_conns s done) ∙ done
  | inr live ↦
      ap (λ (x : Server). x.closed)
        (close_server_form visit visit_conns s live
          ∙ close_connections-as_closed visit (visit_conns s.conns) s)
])

pub begin_graceful-IsServed :
    (visit_conns : List ℕ → List ℕ) (s : Server) → IsServed (begin_graceful visit_conns s)
begin_graceful-IsServed visit_conns s = closed-IsServed _ (elim (Bool-cases s.closed) [
  | inl done ↦ ap (λ (x : Server). x.closed) (begin_graceful_done visit_conns s done) ∙ done
  | inr live ↦ ap (λ (x : Server). x.closed) (begin_graceful_form visit_conns s live)
])
