-- ===== src/Server/OwnershipMoves.antt =====
-- Connections that come, go, or end gracefully leave each open subscription with an owner.
use mathlib.Core.Option.{some-injective}
use distributed_event_bus.Prelude.{
  ℕ, ◌≡◌, refl, sym, ap, ◌∙◌, inl, inr, Bool, true, false, ◌||◌, List, [], ◌∷◌, ◌++◌, Text, some,
  length, get_elem?, set, contains, add, nat_key, nat_eq, nat_eq_iff, text_key, arith, Bool-cases,
  contains-add, contains-remove, get_elem?-set_self,
}
use distributed_event_bus.Broker.State.{Broker}
use distributed_event_bus.Broker.Publish.{Wakeup}
use distributed_event_bus.Broker.Openness.{last-or_before}
use distributed_event_bus.Broker.Invariant.Standings.{get_elem?-append_left, get_elem?-lt}
use distributed_event_bus.Server.State.{
  Connection, Server, accept, remove_connection, new_connection,
}
use distributed_event_bus.Server.Lifecycle.{subscriptions, close_connection, graceful_close, abort}
use distributed_event_bus.Server.Steps.{update, IsOrder}
use distributed_event_bus.Server.Closings.{
  visited-subscriptions, close_connection_done, close_connection_form,
}
use distributed_event_bus.Server.Drains.{drain_all-IsSound, drain_all-opens}
use distributed_event_bus.Server.Graceful.{
  was_closed, all_drained, unfinished, gives_up, waits_on, graceful_close-Graceful, drains_of,
  as_draining,
}
use distributed_event_bus.Server.Ownership.{IsOwned, update-IsOwned}
use distributed_event_bus.Server.OwnershipSteps.{same_subs-IsOwned, close_connection-IsOwned}

pub graceful_close-IsOwned :
    (visit : List ℕ → List ℕ) (world : ℕ → List Wakeup) (finishes : Bool) (redirect : Text)
    (s : Server) (i : ℕ) (c : Connection)
    → IsOrder visit
    → s.draining ≡ true
    → IsOwned s
    → get_elem? s.connections i ≡ some c
    → IsOwned (update i (graceful_close visit world finishes redirect c s.broker).0 s)
graceful_close-IsOwned visit world finishes redirect s i c order draining owned g =
    let sound = drain_all-IsSound world (visit (subscriptions c.subs)) s.broker owned.sound in
    let qs = visit (subscriptions c.subs) in
    elim (graceful_close-Graceful visit world finishes redirect c s.broker) [
      | was_closed _ e ↦ rw e (
          same_subs-IsOwned s i c c s.broker owned g owned.sound refl refl (λ _. draining)
            (λ r topic o. o))
      | all_drained _ d _ e ↦ rw e (
          update-IsOwned s i c _ _ owned g sound (λ _. draining)
            (λ r topic o.
              let (before, n) = drain_all-opens world qs r topic s.broker owned.sound o in
              inr (
                before,
                λ h. absurd (cc (n d, visited-subscriptions visit topic r c.subs order h.entered)),
              )))
      | unfinished _ d _ e ↦ rw e (
          same_subs-IsOwned s i c (as_draining c) (drains_of visit world c s.broker).0 owned g sound
            refl refl (λ _. draining)
            (λ r topic o. (drain_all-opens world qs r topic s.broker owned.sound o).0))
      | gives_up _ x d e ↦ rw e (
          close_connection-IsOwned visit s i c (as_draining c) (drains_of visit world c s.broker).0
            order owned g sound refl refl (λ _. draining)
            (λ r topic o. (drain_all-opens world qs r topic s.broker owned.sound o).0))
      | waits_on _ d e ↦ rw e (
          same_subs-IsOwned s i c (as_draining c) (drains_of visit world c s.broker).0 owned g sound
            refl refl (λ _. draining)
            (λ r topic o. (drain_all-opens world qs r topic s.broker owned.sound o).0))
    ]

-- A connection that leaves `conns` is closed, or the server drains.
pub remove-IsOwned :
    (i : ℕ) (s : Server)
    → IsOwned s
    → ((c : Connection) → get_elem? s.connections i ≡ some c → c.closed ≡ false → s.draining ≡ true)
    → IsOwned (remove_connection i s)
unfolding remove_connection
remove-IsOwned i s owned gone = record {
  sound = owned.sound;
  owners = λ r topic o.
      let w = owned.owners r topic o in
      record {
        index = w.index;
        owner = w.owner;
        found = w.found;
        holds = w.holds;
        alive = w.alive;
        listed = λ open' live. elim (Bool-cases (nat_eq i w.index)) [
          | inl same ↦ absurd (
              cc (
                live,
                gone w.owner
                    (ap (get_elem? s.connections) ((nat_eq_iff i w.index).0 same) ∙ w.found) open',
              ))
          | inr other ↦ contains-remove i w.index s.conns ∙ rw other (w.listed open' live)
        ];
      };
  drains = owned.drains;
}

pub accept_closed :
    (s : Server)
    → s.closed ≡ true
    → accept s ≡ record s {
      connections = s.connections ++ (record new_connection { net_closed = true } ∷ []);
    }
unfolding accept
accept_closed s h = rw h refl

pub accept_open :
    (s : Server)
    → s.closed ≡ false
    → accept s ≡ record s {
      conns = add (length s.connections) s.conns;
      connections = s.connections ++ (new_connection ∷ []);
    }
unfolding accept
accept_open s h = rw h refl

-- A connection that has no subscriptions and does not drain comes last.
append-IsOwned :
    (s : Server) (c : Connection) (conns : List ℕ)
    → IsOwned s
    → c.draining ≡ false
    → ((i : ℕ) → contains i s.conns ≡ true → contains i conns ≡ true)
    → IsOwned (record s { conns = conns; connections = s.connections ++ (c ∷ []) })
append-IsOwned s c conns owned fresh more = record {
  sound = owned.sound;
  owners = λ r topic o.
      let w = owned.owners r topic o in
      record {
        index = w.index;
        owner = w.owner;
        found = get_elem?-append_left s.connections (c ∷ []) w.index w.owner w.found;
        holds = w.holds;
        alive = w.alive;
        listed = λ open' live. more w.index (w.listed open' live);
      };
  drains = λ i d found shut. elim (last-or_before s.connections c d i found) [
    | inl (_, same) ↦ absurd (cc (same, fresh, shut))
    | inr before ↦ owned.drains i d before shut
  ];
}

pub accept-IsOwned : (s : Server) → IsOwned s → IsOwned (accept s)
unfolding new_connection
accept-IsOwned s owned = elim (Bool-cases s.closed) [
  | inl shut ↦ rw (accept_closed s shut) (append-IsOwned s _ s.conns owned refl (λ i h. h))
  | inr live ↦ rw (accept_open s live) (
      append-IsOwned s new_connection (add (length s.connections) s.conns) owned refl
        (λ i h. ground (arith, contains-add (length s.connections) i s.conns)))
]

abort_draining :
    (visit : List ℕ → List ℕ) (draining : Bool) (c : Connection) (b : Broker)
    → (c.draining || draining) ≡ true
    → abort visit draining c b ≡ (c, b)
unfolding abort
abort_draining visit draining c b h = rw h refl

abort_live :
    (visit : List ℕ → List ℕ) (draining : Bool) (c : Connection) (b : Broker)
    → (c.draining || draining) ≡ false
    → abort visit draining c b ≡ close_connection visit c b
unfolding abort
abort_live visit draining c b h = rw h refl

pub close_connection-closed :
    (visit : List ℕ → List ℕ) (c : Connection) (b : Broker)
    → (close_connection visit c b).0.closed ≡ true
close_connection-closed visit c b = elim (Bool-cases c.closed) [
  | inl done ↦ rw (close_connection_done visit c b done) done
  | inr live ↦ rw (close_connection_form visit c b live) refl
]

pub update-found :
    (s : Server) (i : ℕ) (c c' d : Connection)
    → get_elem? s.connections i ≡ some c
    → get_elem? (set s.connections i c') i ≡ some d
    → d ≡ c'
update-found s i c c' d g found =
    some-injective _ _
      (sym found ∙ get_elem?-set_self s.connections i c' (get_elem?-lt s.connections i c g))

pub hang_up-IsOwned :
    (visit : List ℕ → List ℕ) (s : Server) (i : ℕ) (c : Connection)
    → IsOrder visit
    → IsOwned s
    → get_elem? s.connections i ≡ some c
    → IsOwned (remove_connection i (update i (abort visit s.draining c s.broker) s))
hang_up-IsOwned visit s i c order owned g = elim (Bool-cases (c.draining || s.draining)) [
  | inl shut ↦
      let draining : s.draining ≡ true = elim (Bool-cases s.draining) [
        | inl d ↦ d
        | inr d ↦ owned.drains i c g (ground arith)
      ] in
      rw (abort_draining visit s.draining c s.broker shut) (
        remove-IsOwned i (update i (c, s.broker) s)
          (same_subs-IsOwned s i c c s.broker owned g owned.sound refl refl (λ _. draining)
            (λ r topic o. o))
          (λ _ _ _. draining))
  | inr live ↦ rw (abort_live visit s.draining c s.broker live) (
      remove-IsOwned i (update i (close_connection visit c s.broker) s)
        (close_connection-IsOwned visit s i c c s.broker order owned g owned.sound refl refl
          (owned.drains i c g) (λ r topic o. o))
        (λ d found open'. absurd (
          cc (
            open',
            update-found s i c (close_connection visit c s.broker).0 d g found,
            close_connection-closed visit c s.broker,
          ))))
]
