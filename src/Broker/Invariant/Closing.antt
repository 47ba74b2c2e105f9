-- ===== src/Broker/Invariant/Closing.antt =====
-- `Broker.Close` closes every subscription, and keeps the invariant.
use distributed_event_bus.Prelude.{
  ℕ, ◌≡◌, refl, sym, ap, ◌∙◌, subst, Bool, true, false, List, [], ◌∷◌, Text, none, some, length,
  set, get_elem?, All, Map, lookup, contains, nat_key, text_key, arith, if◌then◌else◌, Bool-cases,
  Option-cases, inl, inr, All-set, All-get_elem?, length-set,
}
use distributed_event_bus.Broker.State.{Broker, Subscription, at}
use distributed_event_bus.Broker.Subscription.{close_queue}
use distributed_event_bus.Broker.Publish.{Choices, close_all, close, refs, all_refs}
use distributed_event_bus.Broker.Invariant.Defs.{IsQueue, standing, standings, IsSound, IsRange}
use distributed_event_bus.Broker.Invariant.Standings.{
  get_elem?-standings, standings-set, length-standings,
}
use distributed_event_bus.Prelude.{contains-Perm, get_elem?-set_ne, contains-append}
use distributed_event_bus.Broker.Invariant.Calls.{close_queue-IsQueue}
use distributed_event_bus.Broker.Invariant.Defs.{NumberedFrom}
use distributed_event_bus.Broker.Invariant.Standings.{standings-get_elem?}
use distributed_event_bus.Broker.Invariant.Layout.{NumberedFrom-set}
use distributed_event_bus.Broker.Invariant.CloseLoop.{
  close_all-none, close_all-some, close_all-get_elem?,
}

contains-all_refs :
    (topics : Map Text (Map ℕ ℕ)) (topic : Text) (q : ℕ)
    → contains q (refs (at topic topics)) ≡ true
    → contains q (all_refs topics) ≡ true
unfolding lookup contains
contains-all_refs [] topic q h = h
contains-all_refs ((t, subs) ∷ topics) topic q h =
    ground
      (arith, contains-append q (refs subs) (all_refs topics), contains-all_refs topics topic q)

close_queue_closed :
    (size : ℕ) (s : Subscription) → IsQueue size s → s.closed ≡ true → close_queue false s ≡ s
unfolding close_queue
close_queue_closed size s h c = ground arith

pub close_queues :
    (c : Choices) (b : Broker) (q : ℕ) (s : Subscription)
    → IsRange c
    → IsSound b
    → b.closed ≡ false
    → get_elem? b.heap q ≡ some s
    → get_elem? (close c b).heap q ≡ some (close_queue false s)
unfolding close
close_queues c b q s range sound live g = rw live (
    close_all-get_elem? b.config.queue_size (c.visit (all_refs b.topics)) b.heap q s sound.queues g
    ∙ ap some (settled s.closed refl))
  where
    settled :
        (x : Bool)
        → s.closed ≡ x
        → (if contains q (c.visit (all_refs b.topics)) then close_queue false s else s)
          ≡ close_queue false s
    settled true e = ground (
      arith,
      close_queue_closed b.config.queue_size s
          (All-get_elem? (IsQueue b.config.queue_size) b.heap q s sound.queues g) e,
    )
    settled false e =
        let listed =
          sound.layout.complete q s.topic s.id (get_elem?-standings b.heap q s g ∙ rw e) in
        rw (
          contains-Perm q (c.visit (all_refs b.topics)) (all_refs b.topics)
              (range.visits (all_refs b.topics)),
          contains-all_refs b.topics s.topic q listed,
        )

close_queue_result :
    (size : ℕ) (s : Subscription)
    → IsQueue size s
    → close_queue false s ≡ record s {
      events = if s.closed then s.events else [];
      once_done = true;
      closed = true;
      done_closed = true;
      events_closed = true;
    }
unfolding close_queue
close_queue_result size s h = ground (arith, h.once_agrees, h.done_agrees, h.events_agree)

-- `Close` of a broker that is sound and open closes every subscription that there is, whatever the
-- order in which it goes over them: the events that wait in an open queue are dropped, and a
-- subscription that was closed before keeps those that are left for its reader.
pub close_closes :
    (c : Choices) (b : Broker) (q : ℕ) (s : Subscription)
    → IsRange c
    → IsSound b
    → b.closed ≡ false
    → get_elem? b.heap q ≡ some s
    → get_elem? (close c b).heap q
      ≡ some (record s {
        events = if s.closed then s.events else [];
        once_done = true;
        closed = true;
        done_closed = true;
        events_closed = true;
      })
close_closes c b q s range sound live g =
    close_queues c b q s range sound live g
    ∙ ap some (
        close_queue_result b.config.queue_size s
          (All-get_elem? (IsQueue b.config.queue_size) b.heap q s sound.queues g))

pub close_done : (c : Choices) (b : Broker) → b.closed ≡ true → close c b ≡ b
unfolding close
close_done c b h = ground arith

pub closed_form :
    (c : Choices) (b : Broker)
    → b.closed ≡ false
    → close c b ≡ record b {
      closed = true;
      topics = [];
      heap = close_all (c.visit (all_refs b.topics)) b.heap;
    }
unfolding close
closed_form c b live = ground arith

-- What `close_all` keeps.
record Kept (size : ℕ) (heap heap' : List Subscription) : Type 0 where
  kept_queues : All (IsQueue size) heap'
  kept_ids : NumberedFrom 0 (standings heap')
  kept_length : length heap' ≡ length heap

close_all-Kept :
    (size : ℕ) (rs : List ℕ) (heap : List Subscription)
    → All (IsQueue size) heap
    → NumberedFrom 0 (standings heap)
    → Kept size heap (close_all rs heap)
close_all-Kept size [] heap h n =
    unfold close_all in record { kept_queues = h; kept_ids = n; kept_length = refl }
close_all-Kept size (r ∷ rs) heap h n = elim (Option-cases (get_elem? heap r)) [
  | inl e ↦ rw (close_all-none r rs heap e) (close_all-Kept size rs heap h n)
  | inr (t, e) ↦
      let t' = close_queue false t in
      let (q, _, i) =
        close_queue-IsQueue false size t (All-get_elem? (IsQueue size) heap r t h e) in
      let k = close_all-Kept size rs (set heap r t') (All-set (IsQueue size) heap r t' h q) (
        rw (standings-set heap r t') (
          NumberedFrom-set 0 (standings heap) r (standing t) (standing t') n
            (get_elem?-standings heap r t e) i)) in
      rw (close_all-some r rs heap t e) (record {
        kept_queues = k.kept_queues;
        kept_ids = k.kept_ids;
        kept_length = k.kept_length ∙ length-set heap r t';
      })
]

pub missing_before :
    (rs : List ℕ) (heap : List Subscription) (q : ℕ)
    → get_elem? heap q ≡ none
    → get_elem? (close_all rs heap) q ≡ none
missing_before [] heap q g = unfold close_all in g
missing_before (r ∷ rs) heap q g = elim (Option-cases (get_elem? heap r)) [
  | inl e ↦ rw (close_all-none r rs heap e) (missing_before rs heap q g)
  | inr (t, e) ↦ rw (close_all-some r rs heap t e) (
      missing_before rs (set heap r (close_queue false t)) q
        (get_elem?-set_ne heap r q (close_queue false t) (λ x. cc (e, g, x)) ∙ g))
]

-- `Close` keeps the invariant.
pub close-IsSound : (c : Choices) (b : Broker) → IsRange c → IsSound b → IsSound (close c b)
close-IsSound c b range sound = elim (Bool-cases b.closed) [
  | inl done ↦ subst IsSound (sym (close_done c b done)) sound
  | inr live ↦
      let heap' = close_all (c.visit (all_refs b.topics)) b.heap in
      let k =
        close_all-Kept b.config.queue_size (c.visit (all_refs b.topics)) b.heap sound.queues
          sound.layout.ids in
      rw (closed_form c b live) (record {
        queues = k.kept_queues;
        layout = record {
          routes = tt;
          topics_once = tt;
          ids = k.kept_ids;
          sequence_counts =
              sound.layout.sequence_counts
              ∙ length-standings b.heap
              ∙ sym k.kept_length
              ∙ sym (length-standings heap');
          complete = λ r topic id h. none_open live r topic id h;
        };
        cache_bounded = sound.cache_bounded;
        memory_bounded = sound.memory_bounded;
      })
]
  where
    none_open :
        b.closed ≡ false
        → (r : ℕ) (topic : Text) (id : ℕ)
        → get_elem? (standings (close_all (c.visit (all_refs b.topics)) b.heap)) r
          ≡ some (record { topic = topic; id = id; closed = false })
        → contains r (refs (at topic [])) ≡ true
    none_open live r topic id h =
        let (s', g', e') = standings-get_elem? _ r _ h in
        elim (Option-cases (get_elem? b.heap r)) [
          | inl g ↦ absurd (cc (missing_before (c.visit (all_refs b.topics)) b.heap r g, g'))
          | inr (s, g) ↦
              let shut = close_queues c b r s range sound live g in
              let (_, is_shut, _) =
                close_queue-IsQueue false b.config.queue_size s
                  (All-get_elem? (IsQueue b.config.queue_size) b.heap r s sound.queues g) in
              absurd (
                cc (
                  ap (λ (x : Broker). get_elem? x.heap r) (closed_form c b live),
                  shut,
                  g',
                  e',
                  is_shut,
                ))
        ]
