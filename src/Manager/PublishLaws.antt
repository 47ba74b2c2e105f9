-- ===== src/Manager/PublishLaws.antt =====
-- The attempts of a manager's `Publish`.
use distributed_event_bus.Prelude.{
  ℕ, zero, suc, ◌+◌, ◌≤◌, ◌<◌, ◌≡◌, ◌≢◌, ◌↔◌, ◌⊎◌, refl, sym, ap, ◌∙◌, true, false, List, [], ◌∷◌,
  none, some, Result, ok, length, All, arith, Bool-cases, Option-cases, inl, inr,
}
use distributed_event_bus.Wire.Bytes.{WireError}
use distributed_event_bus.Broker.Event.{Event}
use distributed_event_bus.Client.State.{ClientError, client_closed}
use distributed_event_bus.Client.Calls.{identify}
use distributed_event_bus.Manager.Calls.{
  no_broker_available, of_client, Round, publish_loop, publish, publish_attempts,
}

-- The attempt does not succeed, and the manager is not closed before the next one.
pub data GoesOn (round : Round) : Type 0 where
  without_client : round.current ≡ none → round.closed ≡ false → GoesOn round
  in_vain :
      (client : ℕ) (e : ClientError)
      → round.current ≡ some client
      → round.result ≡ some e
      → round.closed ≡ false
      → GoesOn round

-- From the attempt `k` on, `n` attempts are in vain, and the next one succeeds.
pub data Succeeds (world : ℕ → Round) : ℕ → ℕ → Type 0 where
  at_once :
      {k : ℕ} (client : ℕ)
      → (world k).current ≡ some client
      → (world k).result ≡ none
      → Succeeds world k 0
  later : {k n : ℕ} → GoesOn (world k) → Succeeds world (k + 1) n → Succeeds world k (suc n)

module _ (world : ℕ → Round) (event : Event) where
  -- One attempt of the loop.
  data Attempt (left k : ℕ) : Type 0 where
    succeeds :
        (client : ℕ)
        → (world k).current ≡ some client
        → (world k).result ≡ none
        → publish_loop world event (suc left) k ≡ (none, (client, event) ∷ [])
        → Attempt left k
    stops :
        (given : List (ℕ × Event))
        → (world k).closed ≡ true
        → ((world k).current ≡ none) ⊎ ((world k).result ≢ none)
        → publish_loop world event (suc left) k ≡ (some (of_client client_closed), given)
        → (length given ≤ 1) × All (λ (g : ℕ × Event). g.1 ≡ event) given
        → Attempt left k
    goes_on :
        (given : List (ℕ × Event))
        → GoesOn (world k)
        → publish_loop world event (suc left) k ≡ ((publish_loop world event left (k + 1)).0, given)
        → (length given ≤ suc (length (publish_loop world event left (k + 1)).1))
          × (All (λ (g : ℕ × Event). g.1 ≡ event) (publish_loop world event left (k + 1)).1
              → All (λ (g : ℕ × Event). g.1 ≡ event) given)
        → Attempt left k

  publish_loop-Attempt : (left k : ℕ) → Attempt left k
  unfolding publish_loop
  publish_loop-Attempt left k = elim (Option-cases (world k).current) [
    | inl c ↦ elim (Bool-cases (world k).closed) [
      | inl q ↦ stops [] q (inl c) (rw (c, publish_loop) (rw q refl)) (omega arith, tt)
      | inr q ↦
          goes_on (publish_loop world event left (k + 1)).1 (without_client c q)
            (rw (c, publish_loop) (rw q refl)) (omega arith, λ h. h)
    ]
    | inr (client, c) ↦ elim (Option-cases (world k).result) [
      | inl r ↦ succeeds client c r (rw (c, publish_loop) (rw (r, publish_loop) refl))
      | inr (e, r) ↦ elim (Bool-cases (world k).closed) [
        | inl q ↦
            stops ((client, event) ∷ []) q (inr (λ x. cc (x, r)))
              (rw (c, publish_loop) (rw (r, publish_loop) (rw q refl))) (omega arith, (refl, tt))
        | inr q ↦
            goes_on ((client, event) ∷ (publish_loop world event left (k + 1)).1)
              (in_vain client e c r q) (rw (c, publish_loop) (rw (r, publish_loop) (rw q refl)))
              (omega arith, λ h. (refl, h))
      ]
    ]
  ]

  -- What stops the loop is no success.
  GoesOn-fails : {k : ℕ} → GoesOn (world k) → ((world k).current ≡ none) ⊎ ((world k).result ≢ none)
  GoesOn-fails (without_client c _) = inl c
  GoesOn-fails (in_vain client e _ r _) = inr (λ x. cc (x, r))

  fails-Succeeds :
      {k : ℕ} (client : ℕ)
      → (world k).current ≡ some client
      → (world k).result ≡ none
      → (((world k).current ≡ none) ⊎ ((world k).result ≢ none))
      → ⊥
  fails-Succeeds client c r (inl n) = cc (c, n)
  fails-Succeeds client c r (inr n) = n r

  GoesOn-open : {k : ℕ} → GoesOn (world k) → (world k).closed ≡ false
  GoesOn-open (without_client _ q) = q
  GoesOn-open (in_vain _ _ _ _ q) = q

  Succeeds-publish_loop :
      (left k n : ℕ) → Succeeds world k n → n < left → (publish_loop world event left k).0 ≡ none
  Succeeds-publish_loop zero k n s h = absurd (omega arith)
  Succeeds-publish_loop (suc left) k n (at_once client c r) h = elim (publish_loop-Attempt left k) [
    | succeeds _ _ _ e ↦ ap (λ x. x.0) e
    | stops _ _ f _ _ ↦ absurd (fails-Succeeds client c r f)
    | goes_on _ g _ _ ↦ absurd (fails-Succeeds client c r (GoesOn-fails g))
  ]
  Succeeds-publish_loop (suc left) k _ (later {n = n} g s) h = elim (publish_loop-Attempt left k) [
    | succeeds client c r _ ↦ absurd (fails-Succeeds client c r (GoesOn-fails g))
    | stops _ q _ _ _ ↦ absurd (cc (q, GoesOn-open g))
    | goes_on _ _ e _ ↦ ap (λ x. x.0) e ∙ Succeeds-publish_loop left (k + 1) n s (omega arith)
  ]

  out_of_attempts : (k : ℕ) → publish_loop world event 0 k ≡ (some no_broker_available, [])
  unfolding publish_loop
  out_of_attempts k = refl

  publish_loop-Succeeds :
      (left k : ℕ)
      → (publish_loop world event left k).0 ≡ none
      → (n : ℕ) × (n < left) × Succeeds world k n
  publish_loop-Succeeds zero k h = absurd (cc (ap (λ x. x.0) (out_of_attempts k), h))
  publish_loop-Succeeds (suc left) k h = elim (publish_loop-Attempt left k) [
    | succeeds client c r _ ↦ (0, omega arith, at_once client c r)
    | stops _ _ _ e _ ↦ absurd (cc (ap (λ x. x.0) e, h))
    | goes_on _ g e _ ↦
        let (n, few, s) = publish_loop-Succeeds left (k + 1) (sym (ap (λ x. x.0) e) ∙ h) in
        (suc n, omega arith, later g s)
  ]

  publish_loop-given :
      (left k : ℕ)
      → (length (publish_loop world event left k).1 ≤ left)
        × All (λ (g : ℕ × Event). g.1 ≡ event) (publish_loop world event left k).1
  publish_loop-given zero k = rw (out_of_attempts k) (omega arith, tt)
  publish_loop-given (suc left) k = elim (publish_loop-Attempt left k) [
    | succeeds _ _ _ e ↦ rw e (omega arith, (refl, tt))
    | stops given _ _ e (few, same) ↦ rw e (omega arith, same)
    | goes_on given _ e (few, same) ↦
        let (less, all) = publish_loop-given left (k + 1) in rw e (omega arith, same all)
  ]

publish_form :
    (random : Result WireError (List ℕ)) (world : ℕ → Round) (event event' : Event)
    → identify random event ≡ ok event'
    → publish random world event ≡ publish_loop world event' publish_attempts 0
unfolding publish
publish_form random world event event' h = rw (h, publish) refl

-- `Publish` of a manager returns no error exactly if one of its fifty attempts finds a client whose own
-- publish returns none, and each attempt before finds no client or one that fails, with the manager not
-- closed after it. All that it gives to clients, over all attempts, is one and the same event, with the
-- ID and key that it chose at the start, and no more than fifty times.
pub publish-Succeeds :
    (random : Result WireError (List ℕ)) (world : ℕ → Round) (event event' : Event)
    → identify random event ≡ ok event'
    → (((publish random world event).0 ≡ none)
        ↔ ((n : ℕ) × (n < publish_attempts) × Succeeds world 0 n))
      × (length (publish random world event).1 ≤ publish_attempts)
      × All (λ (g : ℕ × Event). g.1 ≡ event') (publish random world event).1
publish-Succeeds random world event event' h =
    let (few, same) = publish_loop-given world event' publish_attempts 0 in
    rw (publish_form random world event event' h) (
      (
        publish_loop-Succeeds world event' publish_attempts 0,
        λ (n, fits, s). Succeeds-publish_loop world event' publish_attempts 0 n s fits,
      ),
      few,
      same,
    )
