-- ===== src/Server/Ownership.antt =====
-- Every open subscription of the broker belongs to a connection.
use mathlib.Core.Option.{some-injective}
use distributed_event_bus.Prelude.{
  ℕ, ◌≡◌, sym, ap, ◌∙◌, subst, ◌⊎◌, inl, inr, true, false, Text, some, set, get_elem?, lookup,
  contains, nat_key, nat_eq, nat_eq_iff, text_key, Bool-cases, get_elem?-set_self, get_elem?-set_ne,
}
use distributed_event_bus.Broker.State.{Broker}
use distributed_event_bus.Broker.Openness.{IsOpenAt}
use distributed_event_bus.Broker.Invariant.Defs.{IsSound}
use distributed_event_bus.Broker.Invariant.Standings.{get_elem?-lt}
use distributed_event_bus.Server.State.{Connection, Server}
use distributed_event_bus.Server.Steps.{update}

-- The connection has the subscription for the topic.
pub record Holds (c : Connection) (topic : Text) (r : ℕ) : Type 0 where
  pub entered : lookup topic c.subs ≡ some r

-- A connection that holds it. It is not closed, unless the server is. If it is not closed, it is in `conns`
-- as long as there is no graceful shutdown.
pub record Owner (s : Server) (topic : Text) (r : ℕ) : Type 0 where
  pub index : ℕ
  pub owner : Connection
  pub found : get_elem? s.connections index ≡ some owner
  pub holds : Holds owner topic r
  pub alive : s.closed ≡ false → owner.closed ≡ false
  pub listed : owner.closed ≡ false → s.draining ≡ false → contains index s.conns ≡ true

-- The broker is sound, and each of its open subscriptions has an owner. Connections drain only with
-- the server.
pub record IsOwned (s : Server) : Type 0 where
  pub sound : IsSound s.broker
  pub owners : (r : ℕ) (topic : Text) → IsOpenAt s.broker.heap r topic → Owner s topic r
  pub drains :
      (i : ℕ) (c : Connection)
      → get_elem? s.connections i ≡ some c
      → c.draining ≡ true
      → s.draining ≡ true

-- A step in which the connection `i` becomes `c'` and the broker `b'`. What is then open is held by `c'`,
-- or was open before, and `c'` still holds it if `c` did.
pub update-IsOwned :
    (s : Server) (i : ℕ) (c c' : Connection) (b' : Broker)
    → IsOwned s
    → get_elem? s.connections i ≡ some c
    → IsSound b'
    → (c'.draining ≡ true → s.draining ≡ true)
    → ((r : ℕ) (topic : Text)
        → IsOpenAt b'.heap r topic
        → (Holds c' topic r × (contains i s.conns ≡ true) × (s.closed ≡ false → c'.closed ≡ false))
          ⊎ (IsOpenAt s.broker.heap r topic
              × (Holds c topic r → Holds c' topic r × (c'.closed ≡ c.closed))))
    → IsOwned (update i (c', b') s)
update-IsOwned s i c c' b' owned g sound drains kept = record {
  sound = sound;
  owners = λ r topic o. elim (kept r topic o) [
    | inl (h, l, a) ↦ record {
      index = i;
      owner = c';
      found = here;
      holds = h;
      alive = a;
      listed = λ _ _. l;
    }
    | inr (before, keeps) ↦ still r topic keeps (owned.owners r topic before)
  ];
  drains = λ j d found shut. elim (Bool-cases (nat_eq i j)) [
    | inl same ↦
        let e : i ≡ j = (nat_eq_iff i j).0 same in
        let same_one : c' ≡ d =
          some-injective _ _ (sym here ∙ ap (get_elem? (set s.connections i c')) e ∙ found) in
        drains (subst (λ (x : Connection). x.draining ≡ true) (sym same_one) shut)
    | inr other ↦
        owned.drains j d
          (sym (get_elem?-set_ne s.connections i j c' (λ e. cc (other, (nat_eq_iff i j).1 e)))
            ∙ found)
          shut
  ];
}
  where
    here : get_elem? (set s.connections i c') i ≡ some c'
    here = get_elem?-set_self s.connections i c' (get_elem?-lt s.connections i c g)

    still :
        (r : ℕ) (topic : Text)
        → (Holds c topic r → Holds c' topic r × (c'.closed ≡ c.closed))
        → Owner s topic r
        → Owner (update i (c', b') s) topic r
    still r topic keeps o = elim (Bool-cases (nat_eq i o.index)) [
      | inl same ↦
          let e : i ≡ o.index = (nat_eq_iff i o.index).0 same in
          let same_owner : o.owner ≡ c =
            some-injective _ _ (sym o.found ∙ ap (get_elem? s.connections) (sym e) ∙ g) in
          let (h, same_closed) = keeps (subst (λ x. Holds x topic r) same_owner o.holds) in
          let agrees : c'.closed ≡ o.owner.closed =
            same_closed ∙ sym (ap (λ (x : Connection). x.closed) same_owner) in
          record {
            index = o.index;
            owner = c';
            found = subst (λ n. get_elem? (set s.connections i c') n ≡ some c') e here;
            holds = h;
            alive = λ live. agrees ∙ o.alive live;
            listed = λ open' live. o.listed (sym agrees ∙ open') live;
          }
      | inr other ↦ record {
        index = o.index;
        owner = o.owner;
        found =
            get_elem?-set_ne s.connections i o.index c'
              (λ e. cc (other, (nat_eq_iff i o.index).1 e))
            ∙ o.found;
        holds = o.holds;
        alive = o.alive;
        listed = o.listed;
      }
    ]

-- A change of the broker that opens nothing.
pub broker-IsOwned :
    (s : Server) (b' : Broker)
    → IsOwned s
    → IsSound b'
    → ((r : ℕ) (topic : Text) → IsOpenAt b'.heap r topic → IsOpenAt s.broker.heap r topic)
    → IsOwned (record s { broker = b' })
broker-IsOwned s b' owned sound before = record {
  sound = sound;
  owners = λ r topic o.
      let w = owned.owners r topic (before r topic o) in
      record {
        index = w.index;
        owner = w.owner;
        found = w.found;
        holds = w.holds;
        alive = w.alive;
        listed = w.listed;
      };
  drains = owned.drains;
}
