-- ===== src/Server/ServerClose.antt =====
-- `Server.Close` closes every connection that is served.
use distributed_event_bus.Prelude.{
  ℕ, ◌≡◌, ◌⊎◌, refl, sym, ap, ◌∙◌, subst, inl, inr, true, false, List, [], ◌∷◌, none, some,
  get_elem?, set, contains, nat_key, nat_eq, nat_eq_iff, arith, Bool-cases, Option-cases,
  get_elem?-set_ne,
}
use distributed_event_bus.Server.State.{Connection, Server}
use distributed_event_bus.Server.Lifecycle.{close_connection, close_connections, close_server}
use distributed_event_bus.Server.Steps.{update, IsOrder}
use distributed_event_bus.Server.Ownership.{IsOwned}
use distributed_event_bus.Server.OwnershipSteps.{close_connection-IsOwned}
use distributed_event_bus.Server.OwnershipMoves.{close_connection-closed, update-found}

-- If there is a connection at `i`, it is closed.
abbrev pub ClosedAt : List Connection → ℕ → Type 0
ClosedAt connections i = (d : Connection) → get_elem? connections i ≡ some d → d.closed ≡ true

close_one-ClosedAt :
    (visit : List ℕ → List ℕ) (s : Server) (i : ℕ) (c : Connection)
    → get_elem? s.connections i ≡ some c
    → ClosedAt (update i (close_connection visit c s.broker) s).connections i
close_one-ClosedAt visit s i c g d found =
    ap (λ (x : Connection). x.closed)
      (update-found s i c (close_connection visit c s.broker).0 d g found)
    ∙ close_connection-closed visit c s.broker

-- A connection that is closed stays so.
close_one-stays :
    (visit : List ℕ → List ℕ) (s : Server) (i j : ℕ) (c : Connection)
    → get_elem? s.connections i ≡ some c
    → ClosedAt s.connections j
    → ClosedAt (update i (close_connection visit c s.broker) s).connections j
close_one-stays visit s i j c g h d found = elim (Bool-cases (nat_eq i j)) [
  | inl same ↦
      let e : i ≡ j = (nat_eq_iff i j).0 same in
      close_one-ClosedAt visit s i c g d
        (ap (get_elem? (set s.connections i (close_connection visit c s.broker).0)) e ∙ found)
  | inr other ↦ h d (
      sym (
        get_elem?-set_ne s.connections i j (close_connection visit c s.broker).0
          (λ e. cc (other, (nat_eq_iff i j).1 e)))
      ∙ found)
]

pub record Shuts (s : Server) (is : List ℕ) (s' : Server) : Type 0 where
  pub owned : IsOwned s'
  pub conns : s'.conns ≡ s.conns
  pub draining : s'.draining ≡ s.draining
  pub still_closed : s'.closed ≡ s.closed
  pub stays : (i : ℕ) → ClosedAt s.connections i → ClosedAt s'.connections i
  pub shuts : (i : ℕ) → contains i is ≡ true → ClosedAt s'.connections i

close_connections-none :
    (visit : List ℕ → List ℕ) (i : ℕ) (is : List ℕ) (s : Server)
    → get_elem? s.connections i ≡ none
    → close_connections visit (i ∷ is) s ≡ close_connections visit is s
unfolding close_connections
close_connections-none visit i is s e = rw (e, close_connections)

close_connections-some :
    (visit : List ℕ → List ℕ) (i : ℕ) (is : List ℕ) (s : Server) (c : Connection)
    → get_elem? s.connections i ≡ some c
    → close_connections visit (i ∷ is) s
      ≡ close_connections visit is (update i (close_connection visit c s.broker) s)
unfolding close_connections
close_connections-some visit i is s c e = rw (e, close_connections)

first_or_rest :
    (j i : ℕ) (is : List ℕ) → contains j (i ∷ is) ≡ true → (i ≡ j) ⊎ (contains j is ≡ true)
unfolding contains
first_or_rest j i is h = elim (Bool-cases (nat_eq i j)) [
  | inl same ↦ inl ((nat_eq_iff i j).0 same)
  | inr other ↦ inr (ground arith)
]

pub close_connections-Shuts :
    (visit : List ℕ → List ℕ) (is : List ℕ) (s : Server)
    → IsOrder visit
    → IsOwned s
    → Shuts s is (close_connections visit is s)
close_connections-Shuts visit [] s order owned =
    unfold close_connections contains in
    record {
      owned = owned;
      conns = refl;
      draining = refl;
      still_closed = refl;
      stays = λ i h. h;
      shuts = λ i h. absurd (cc);
    }
close_connections-Shuts visit (i ∷ is) s order owned =
    elim (Option-cases (get_elem? s.connections i)) [
      | inl e ↦
          let k = close_connections-Shuts visit is s order owned in
          rw (close_connections-none visit i is s e) (record {
            owned = k.owned;
            conns = k.conns;
            draining = k.draining;
            still_closed = k.still_closed;
            stays = k.stays;
            shuts = λ j h. elim (first_or_rest j i is h) [
              | inl same ↦ k.stays j (λ d found. absurd (cc (e, found, same)))
              | inr later ↦ k.shuts j later
            ];
          })
      | inr (c, e) ↦
          let s1 : Server = update i (close_connection visit c s.broker) s in
          let k = close_connections-Shuts visit is s1 order (
            close_connection-IsOwned visit s i c c s.broker order owned e owned.sound refl refl
              (owned.drains i c e) (λ r topic o. o)) in
          rw (close_connections-some visit i is s c e) (record {
            owned = k.owned;
            conns = k.conns;
            draining = k.draining;
            still_closed = k.still_closed;
            stays = λ j h. k.stays j (close_one-stays visit s i j c e h);
            shuts = λ j h. elim (first_or_rest j i is h) [
              | inl same ↦
                  k.stays j
                    (subst (ClosedAt s1.connections) same (close_one-ClosedAt visit s i c e))
              | inr later ↦ k.shuts j later
            ];
          })
    ]

pub close_server_done :
    (visit visit_conns : List ℕ → List ℕ) (s : Server)
    → s.closed ≡ true
    → close_server visit visit_conns s ≡ s
unfolding close_server
close_server_done visit visit_conns s h = rw h refl

abbrev pub as_closed : Server → Server
as_closed s = record s { closed = true; listener_closed = true }

pub close_server_form :
    (visit visit_conns : List ℕ → List ℕ) (s : Server)
    → s.closed ≡ false
    → close_server visit visit_conns s ≡ close_connections visit (visit_conns s.conns) (as_closed s)
unfolding close_server
close_server_form visit visit_conns s h = rw h refl

-- Closing connections does not look at what the server knows of itself.
pub close_connections-as_closed :
    (visit : List ℕ → List ℕ) (is : List ℕ) (s : Server)
    → close_connections visit is (as_closed s) ≡ as_closed (close_connections visit is s)
close_connections-as_closed visit [] s = unfold close_connections in refl
close_connections-as_closed visit (i ∷ is) s = elim (Option-cases (get_elem? s.connections i)) [
  | inl e ↦
      close_connections-none visit i is (as_closed s) e
      ∙ close_connections-as_closed visit is s
      ∙ ap as_closed (sym (close_connections-none visit i is s e))
  | inr (c, e) ↦
      close_connections-some visit i is (as_closed s) c e
      ∙ close_connections-as_closed visit is (update i (close_connection visit c s.broker) s)
      ∙ ap as_closed (sym (close_connections-some visit i is s c e))
]

pub as_closed-IsOwned : (s : Server) → IsOwned s → IsOwned (as_closed s)
as_closed-IsOwned s owned = record {
  sound = owned.sound;
  owners = λ r topic o.
      let w = owned.owners r topic o in
      record {
        index = w.index;
        owner = w.owner;
        found = w.found;
        holds = w.holds;
        alive = λ e. absurd (cc);
        listed = w.listed;
      };
  drains = owned.drains;
}
