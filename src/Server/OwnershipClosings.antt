-- ===== src/Server/OwnershipClosings.antt =====
-- The ends of the server and of its broker leave each open subscription with an owner.
use mathlib.Core.Option.{some-injective}
use distributed_event_bus.Prelude.{
  ℕ, ◌≡◌, refl, sym, ap, ◌∙◌, subst, inl, inr, true, false, List, [], ◌∷◌, Text, none, some,
  get_elem?, set, lookup, All-get_elem?, nat_key, text_key, if◌then◌else◌, Bool-cases, Option-cases,
  nat_eq, nat_eq_iff, get_elem?-set_self, get_elem?-set_ne,
}
use distributed_event_bus.Broker.State.{Broker, begin_shutdown}
use distributed_event_bus.Broker.Publish.{Choices, all_refs}
use distributed_event_bus.Broker.Publish
use distributed_event_bus.Broker.Openness.{IsOpenAt}
use distributed_event_bus.Broker.Invariant.Defs.{IsQueue, IsSound, IsRange, Standing}
use distributed_event_bus.Broker.Invariant.Calls.{begin_shutdown-IsSound, close_queue-IsQueue}
use distributed_event_bus.Broker.Invariant.Closing.{
  close_queues, close_done, closed_form, missing_before,
}
use distributed_event_bus.Broker.Invariant.Standings.{standings-get_elem?, get_elem?-lt}
use distributed_event_bus.Server.State.{Connection, Server}
use distributed_event_bus.Server.Lifecycle.{begin_graceful, mark_draining, close_server}
use distributed_event_bus.Server.Steps.{IsOrder}
use distributed_event_bus.Server.Ownership.{IsOwned}
use distributed_event_bus.Server.ServerClose.{
  close_connections-Shuts, close_server_done, close_server_form, as_closed, as_closed-IsOwned,
}

pub close_server-IsOwned :
    (visit visit_conns : List ℕ → List ℕ) (s : Server)
    → IsOrder visit
    → IsOwned s
    → IsOwned (close_server visit visit_conns s)
close_server-IsOwned visit visit_conns s order owned = elim (Bool-cases s.closed) [
  | inl done ↦ rw (close_server_done visit visit_conns s done) owned
  | inr live ↦
      rw (close_server_form visit visit_conns s live)
        (close_connections-Shuts visit (visit_conns s.conns) (as_closed s) order
          (as_closed-IsOwned s owned)).owned
]

-- Nothing is open in a broker that is closed by `Close`.
pub close-shuts :
    (choices : Choices) (b : Broker) (r : ℕ) (topic : Text)
    → IsRange choices
    → IsSound b
    → b.closed ≡ false
    → IsOpenAt (Publish.close choices b).heap r topic
    → ⊥
close-shuts choices b r topic range sound live o =
    let (x, g, e) = standings-get_elem? (Publish.close choices b).heap r _ o.stands in
    elim (Option-cases (get_elem? b.heap r)) [
      | inl missing ↦
          (cc (
            g,
            ap (λ (x : Broker). get_elem? x.heap r) (closed_form choices b live)
                ∙ missing_before (choices.visit (all_refs b.topics)) b.heap r missing,
          ))
      | inr (s, found) ↦
          let (_, shut, _) =
            close_queue-IsQueue false b.config.queue_size s
              (All-get_elem? (IsQueue b.config.queue_size) b.heap r s sound.queues found) in
          (cc (
            close_queues choices b r s range sound live found,
            g,
            shut,
            ap (λ (y : Standing). y.closed) e,
          ))
    ]

pub close-opens :
    (choices : Choices) (b : Broker) (r : ℕ) (topic : Text)
    → IsRange choices
    → IsSound b
    → IsOpenAt (Publish.close choices b).heap r topic
    → IsOpenAt b.heap r topic
close-opens choices b r topic range sound o = elim (Bool-cases b.closed) [
  | inl done ↦ subst (λ (x : Broker). IsOpenAt x.heap r topic) (close_done choices b done) o
  | inr live ↦ absurd (close-shuts choices b r topic range sound live o)
]

-- What marking leaves of a connection.
record Marked (connections : List Connection) (i : ℕ) (c : Connection) : Type 0 where
  marked : Connection
  still : get_elem? connections i ≡ some marked
  same_subs : marked.subs ≡ c.subs
  same_closed : marked.closed ≡ c.closed

mark_draining-none :
    (i : ℕ) (is : List ℕ) (cs : List Connection)
    → get_elem? cs i ≡ none
    → mark_draining (i ∷ is) cs ≡ mark_draining is cs
unfolding mark_draining
mark_draining-none i is cs e = rw (e, mark_draining)

mark : Connection → Connection
mark c = record c { draining = if c.closed then c.draining else true }

mark_draining-some :
    (i : ℕ) (is : List ℕ) (cs : List Connection) (c : Connection)
    → get_elem? cs i ≡ some c
    → mark_draining (i ∷ is) cs ≡ mark_draining is (set cs i (mark c))
unfolding mark_draining mark
mark_draining-some i is cs c e = rw (e, mark_draining)

mark_draining-Marked :
    (is : List ℕ) (cs : List Connection) (j : ℕ) (c : Connection)
    → get_elem? cs j ≡ some c
    → Marked (mark_draining is cs) j c
unfolding mark
mark_draining-Marked [] cs j c g =
    unfold mark_draining in record { marked = c; still = g; same_subs = refl; same_closed = refl }
mark_draining-Marked (i ∷ is) cs j c g = elim (Option-cases (get_elem? cs i)) [
  | inl e ↦ rw (mark_draining-none i is cs e) (mark_draining-Marked is cs j c g)
  | inr (d, e) ↦ rw (mark_draining-some i is cs d e) (elim (Bool-cases (nat_eq i j)) [
    | inl same ↦
        let q : i ≡ j = (nat_eq_iff i j).0 same in
        let same_one : d ≡ c = some-injective _ _ (sym e ∙ ap (get_elem? cs) q ∙ g) in
        let k = mark_draining-Marked is (set cs i (mark d)) j (mark d) (
          subst (λ n. get_elem? (set cs i (mark d)) n ≡ some (mark d)) q
            (get_elem?-set_self cs i (mark d) (get_elem?-lt cs i d e))) in
        record {
          marked = k.marked;
          still = k.still;
          same_subs = k.same_subs ∙ ap (λ (x : Connection). x.subs) same_one;
          same_closed = k.same_closed ∙ ap (λ (x : Connection). x.closed) same_one;
        }
    | inr other ↦
        mark_draining-Marked is (set cs i (mark d)) j c
          (get_elem?-set_ne cs i j (mark d) (λ q. cc (other, (nat_eq_iff i j).1 q)) ∙ g)
  ])
]

pub begin_graceful_done :
    (visit_conns : List ℕ → List ℕ) (s : Server)
    → s.closed ≡ true
    → begin_graceful visit_conns s ≡ s
unfolding begin_graceful
begin_graceful_done visit_conns s h = rw h refl

pub begin_graceful_form :
    (visit_conns : List ℕ → List ℕ) (s : Server)
    → s.closed ≡ false
    → begin_graceful visit_conns s ≡ record s {
      closed = true;
      draining = true;
      listener_closed = true;
      broker = begin_shutdown s.broker;
      connections = mark_draining (visit_conns s.conns) s.connections;
    }
unfolding begin_graceful
begin_graceful_form visit_conns s h = rw h refl

pub begin_graceful-IsOwned :
    (visit_conns : List ℕ → List ℕ) (s : Server)
    → IsOwned s
    → IsOwned (begin_graceful visit_conns s)
begin_graceful-IsOwned visit_conns s owned = elim (Bool-cases s.closed) [
  | inl done ↦ rw (begin_graceful_done visit_conns s done) owned
  | inr live ↦ rw (begin_graceful_form visit_conns s live) (record {
    sound = begin_shutdown-IsSound s.broker owned.sound;
    owners = λ r topic o.
        let w =
          owned.owners r topic
            (unfold begin_shutdown in record { open_id = o.open_id; stands = o.stands }) in
        let k = mark_draining-Marked (visit_conns s.conns) s.connections w.index w.owner w.found in
        record {
          index = w.index;
          owner = k.marked;
          found = k.still;
          holds = record { entered = ap (lookup topic) k.same_subs ∙ w.holds.entered };
          alive = λ e. absurd (cc);
          listed = λ _ e. absurd (cc);
        };
    drains = λ i c found shut. refl;
  })
]
