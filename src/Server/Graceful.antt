-- ===== src/Server/Graceful.antt =====
-- How `gracefulClose` ends.
use distributed_event_bus.Prelude.{
  ℕ, ◌≡◌, refl, ap, ◌∙◌, inl, inr, Bool, true, false, List, [], Text, if◌then◌else◌, Bool-cases,
}
use distributed_event_bus.Broker.State.{Broker, ContextError}
use distributed_event_bus.Broker.Publish.{
  Wakeup, DrainResult, drained, drain_failed, still_draining,
}
use distributed_event_bus.Server.State.{Connection}
use distributed_event_bus.Server.Lifecycle.{
  subscriptions, close_connection, close_transport, drain_all, graceful_close, Ending, ends,
  still_waits, shutdown_notice,
}

-- `Drain` of the connection's subscriptions.
abbrev pub drains_of :
    (List ℕ → List ℕ) → (ℕ → List Wakeup) → Connection → Broker → Broker × DrainResult
drains_of visit world c b = drain_all world (visit (subscriptions c.subs)) b

abbrev pub as_draining : Connection → Connection
as_draining c = record c { draining = true }

pub data Graceful (visit : List ℕ → List ℕ) (world : ℕ → List Wakeup) (finishes : Bool)
    (redirect : Text) (c : Connection) (b : Broker) (after : (Connection × Broker) × Ending)
    : Type 0 where
  was_closed :
      c.closed ≡ true → after ≡ ((c, b), ends []) → Graceful visit world finishes redirect c b after
  all_drained :
      c.closed ≡ false
      → (drains_of visit world c b).1 ≡ drained
      → finishes ≡ true
      → after ≡ (
        (close_transport (as_draining c), (drains_of visit world c b).0),
        ends (shutdown_notice redirect),
      )
      → Graceful visit world finishes redirect c b after
  unfinished :
      c.closed ≡ false
      → (drains_of visit world c b).1 ≡ drained
      → finishes ≡ false
      → after ≡ ((as_draining c, (drains_of visit world c b).0), still_waits)
      → Graceful visit world finishes redirect c b after
  gives_up :
      c.closed ≡ false
      → (e : ContextError) → (drains_of visit world c b).1 ≡ drain_failed e
      → after ≡ (close_connection visit (as_draining c) (drains_of visit world c b).0, ends [])
      → Graceful visit world finishes redirect c b after
  waits_on :
      c.closed ≡ false
      → (drains_of visit world c b).1 ≡ still_draining
      → after ≡ ((as_draining c, (drains_of visit world c b).0), still_waits)
      → Graceful visit world finishes redirect c b after

if_false {ℓ} : {A : Type ℓ} (x : Bool) (a b : A) → x ≡ false → (if x then a else b) ≡ b
if_false true a b h = absurd (cc)
if_false false a b h = refl

-- After the drains, on a connection that is not closed.
abbrev after_drains :
    (List ℕ → List ℕ)
    → (ℕ → List Wakeup)
    → Bool
    → Text
    → Connection
    → Broker
    → DrainResult
    → (Connection × Broker) × Ending
after_drains visit world finishes redirect c b drained =
    if finishes
    then (
      (close_transport (as_draining c), (drains_of visit world c b).0),
      ends (shutdown_notice redirect),
    )
    else ((as_draining c, (drains_of visit world c b).0), still_waits)
after_drains visit world finishes redirect c b (drain_failed _) =
    (close_connection visit (as_draining c) (drains_of visit world c b).0, ends [])
after_drains visit world finishes redirect c b still_draining =
    ((as_draining c, (drains_of visit world c b).0), still_waits)

graceful_close_live :
    (visit : List ℕ → List ℕ) (world : ℕ → List Wakeup) (finishes : Bool) (redirect : Text)
    (c : Connection) (b : Broker) (result : DrainResult)
    → c.closed ≡ false
    → (drains_of visit world c b).1 ≡ result
    → graceful_close visit world finishes redirect c b
      ≡ after_drains visit world finishes redirect c b result
unfolding graceful_close
graceful_close_live visit world finishes redirect c b result live e =
    if_false c.closed _ _ live
    ∙ by_result (drains_of visit world c b).1
    ∙ ap (after_drains visit world finishes redirect c b) e
  where
    by_result :
        (x : DrainResult)
        → elim x [
          | drained ↦
              if finishes
              then (
                (close_transport (as_draining c), (drains_of visit world c b).0),
                ends (shutdown_notice redirect),
              )
              else ((as_draining c, (drains_of visit world c b).0), still_waits)
          | drain_failed _ ↦
              (close_connection visit (as_draining c) (drains_of visit world c b).0, ends [])
          | still_draining ↦ ((as_draining c, (drains_of visit world c b).0), still_waits)
        ]
          ≡ after_drains visit world finishes redirect c b x
    by_result drained = refl
    by_result (drain_failed _) = refl
    by_result still_draining = refl

pub graceful_close-Graceful :
    (visit : List ℕ → List ℕ) (world : ℕ → List Wakeup) (finishes : Bool) (redirect : Text)
    (c : Connection) (b : Broker)
    → Graceful visit world finishes redirect c b (graceful_close visit world finishes redirect c b)
graceful_close-Graceful visit world finishes redirect c b = elim (Bool-cases c.closed) [
  | inl done ↦ was_closed done (unfold graceful_close in rw done refl)
  | inr live ↦ by_result live (drains_of visit world c b).1 refl
]
  where
    by_result :
        c.closed ≡ false
        → (x : DrainResult) → (drains_of visit world c b).1 ≡ x
        → Graceful visit world finishes redirect c b
            (graceful_close visit world finishes redirect c b)
    by_result live drained e = elim (Bool-cases finishes) [
      | inl f ↦
          all_drained live e f
            (graceful_close_live visit world finishes redirect c b drained live e ∙ rw f refl)
      | inr f ↦
          unfinished live e f
            (graceful_close_live visit world finishes redirect c b drained live e ∙ rw f refl)
    ]
    by_result live (drain_failed x) e =
        gives_up live x e
          (graceful_close_live visit world finishes redirect c b (drain_failed x) live e)
    by_result live still_draining e =
        waits_on live e
          (graceful_close_live visit world finishes redirect c b still_draining live e)
