-- ===== src/Server/DeliveryLaws.antt =====
-- When `deliver` takes an event as delivered, and what it sends.
use distributed_event_bus.Prelude.{
  ℕ, zero, suc, ◌+◌, ◌≤◌, ◌<◌, ◌≡◌, ◌≢◌, refl, sym, ap, ◌∙◌, Bool, true, false, List, [], ◌∷◌, ok,
  ◌==◌, arith, inl, inr, ◌↔◌, Bool-cases,
}
use distributed_event_bus.Protocol.Frame.{Frame, type_event}
use distributed_event_bus.Broker.Event.{Event}
use distributed_event_bus.Messages.Codec.{encode_event, ack_delivered}
use distributed_event_bus.Server.Delivery.{
  Attempted, send_fails, answers, times_out, attempts, deliver, delivery_max_attempts,
}

-- The attempt ends without the acknowledgement of a delivery, and the connection is still there.
pub data Retries : Attempted → Type 0 where
  on_timeout : Retries times_out
  on_status : (status : ℕ) → (status == ack_delivered) ≡ false → Retries (answers status)

-- From the attempt `k` on, `n` attempts are in vain, and the next one is acknowledged.
pub data Acknowledges (world : ℕ → Attempted) : ℕ → ℕ → Type 0 where
  at_once : {k : ℕ} → world k ≡ answers ack_delivered → Acknowledges world k 0
  after_retry :
      {k n : ℕ} → Retries (world k) → Acknowledges world (k + 1) n → Acknowledges world k (suc n)

abbrev pub copies : ℕ → Frame → List Frame
copies zero f = []
copies (suc n) f = f ∷ copies n f

module _ (world : ℕ → Attempted) (frame : Frame) where
  -- One round of the loop.
  data Round (left k : ℕ) : Type 0 where
    failed : world k ≡ send_fails → attempts world frame (suc left) k ≡ (false, []) → Round left k
    acknowledged :
        world k ≡ answers ack_delivered
        → attempts world frame (suc left) k ≡ (true, frame ∷ [])
        → Round left k
    retried :
        Retries (world k)
        → attempts world frame (suc left) k
          ≡ ((attempts world frame left (k + 1)).0, frame ∷ (attempts world frame left (k + 1)).1)
        → Round left k

  attempts_none : (k : ℕ) → attempts world frame 0 k ≡ (false, [])
  unfolding attempts
  attempts_none k = refl

  attempts-Round : (left k : ℕ) (a : Attempted) → world k ≡ a → Round left k
  unfolding attempts
  attempts-Round left k send_fails h = failed h (rw (h, attempts))
  attempts-Round left k times_out h = retried (rw h on_timeout) (rw (h, attempts))
  attempts-Round left k (answers status) h = elim (Bool-cases (status == ack_delivered)) [
    | inl e ↦ acknowledged (h ∙ ap answers (ground arith)) (rw (h, attempts) (rw e))
    | inr e ↦ retried (rw h (on_status status e)) (rw (h, attempts) (rw e))
  ]

  Acknowledges-attempts :
      (left k n : ℕ) → Acknowledges world k n → n < left → (attempts world frame left k).0 ≡ true
  Acknowledges-attempts zero k n a h = absurd (omega arith)
  Acknowledges-attempts (suc left) k n (at_once e) h = elim (attempts-Round left k (world k) refl) [
    | failed f q ↦ absurd (cc)
    | acknowledged f q ↦ rw q
    | retried f q ↦ absurd (again _ f e)
  ]
    where
      again : (a : Attempted) → Retries a → a ≢ answers ack_delivered
      again a on_timeout p = cc
      again a (on_status status f) p = ground arith
  Acknowledges-attempts (suc left) k _ (after_retry {n = n} f a) h =
      elim (attempts-Round left k (world k) refl) [
        | failed g q ↦ absurd (lost _ f g)
        | acknowledged g q ↦ rw q
        | retried g q ↦ rw q (Acknowledges-attempts left (k + 1) n a (omega arith))
      ]
    where
      lost : (a : Attempted) → Retries a → a ≢ send_fails
      lost a on_timeout p = cc
      lost a (on_status status f) p = cc

  attempts-Acknowledges :
      (left k : ℕ)
      → (attempts world frame left k).0 ≡ true
      → (n : ℕ) × (n < left) × Acknowledges world k n
  attempts-Acknowledges zero k h =
      absurd (cc (ap (λ (x : Bool × List Frame). x.0) (attempts_none k), h))
  attempts-Acknowledges (suc left) k h = elim (attempts-Round left k (world k) refl) [
    | failed g q ↦ absurd (cc)
    | acknowledged g q ↦ (0, omega arith, at_once g)
    | retried g q ↦
        let (n, few, a) =
          attempts-Acknowledges left (k + 1) (ap (λ (x : Bool × List Frame). x.0) (sym q) ∙ h) in
        (suc n, omega arith, after_retry g a)
  ]

  attempts-copies :
      (left k : ℕ) → (n : ℕ) × (n ≤ left) × ((attempts world frame left k).1 ≡ copies n frame)
  attempts-copies zero k = (0, omega arith, ap (λ (x : Bool × List Frame). x.1) (attempts_none k))
  attempts-copies (suc left) k = elim (attempts-Round left k (world k) refl) [
    | failed g q ↦ (0, omega arith, rw q)
    | acknowledged g q ↦ (1, omega arith, rw q)
    | retried g q ↦
        let (n, few, e) = attempts-copies left (k + 1) in (suc n, omega arith, rw (q, e))
  ]

deliver_form :
    (world : ℕ → Attempted) (event : Event) (payload : List ℕ)
    → encode_event event ≡ ok payload
    → deliver world event
      ≡ attempts world (record { kind = type_event; payload = payload }) delivery_max_attempts 1
unfolding deliver
deliver_form world event payload h = rw (h, deliver)

-- An event that can be encoded counts as delivered exactly if the client acknowledges one of the first
-- `deliveryMaxAttempts` attempts as delivered, and every attempt before it ends in a timeout or with
-- another status. Whatever happens, nothing is sent but copies of the event's frame, and no more of
-- them than attempts.
pub deliver-Acknowledges :
    (world : ℕ → Attempted) (event : Event) (payload : List ℕ)
    → encode_event event ≡ ok payload
    → ((deliver world event).0 ≡ true
        ↔ ((n : ℕ) × (n < delivery_max_attempts) × Acknowledges world 1 n))
      × ((n : ℕ) × (n ≤ delivery_max_attempts)
          × ((deliver world event).1 ≡ copies n (record { kind = type_event; payload = payload })))
deliver-Acknowledges world event payload h =
    let frame : Frame = record { kind = type_event; payload = payload } in
    rw (deliver_form world event payload h) (
      (
        attempts-Acknowledges world frame delivery_max_attempts 1,
        λ (n, few, a). Acknowledges-attempts world frame delivery_max_attempts 1 n a few,
      ),
      attempts-copies world frame delivery_max_attempts 1,
    )
