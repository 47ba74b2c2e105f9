-- ===== src/Commands/ProducerLaws.antt =====
-- What the producer publishes.
use distributed_event_bus.Prelude.{
  ℕ, zero, suc, ◌+◌, ◌≤◌, ◌<◌, ◌≡◌, ◌≢◌, ◌↔◌, ◌⊎◌, refl, ap, ◌∙◌, inl, inr, true, false, List, [],
  ◌∷◌, ◌++◌, Text, length, arith, Bool-cases, none, some, Option, Result, ok, err,
}
use distributed_event_bus.Broker.Event.{Event}
use distributed_event_bus.Broker.State.{pos}
use distributed_event_bus.Client.State.{ClientError, new_message_id}
use distributed_event_bus.Manager.Calls as Manager
use distributed_event_bus.Server.Failures.{digits}
use distributed_event_bus.Commands.Decimals.{IsDecimal, digits-IsDecimal}
use distributed_event_bus.Commands.Producer.{
  Flags, Round, Exit, finished, failed, running, goes_on, numbered, event_of, produce_from, produce,
}

-- A payload that ends in " #" and a decimal numeral of the number.
pub record CarriesNumber (payload : Text) (n : ℕ) (carried : List ℕ) : Type 0 where
  pub numeral : Text
  pub carries : carried ≡ payload ++ (32 ∷ 35 ∷ numeral)
  pub decimal : IsDecimal numeral n

-- The events carry the numbers from one on, in order.
abbrev pub CountsFrom : Text → ℕ → List Event → Type 0
CountsFrom payload n [] = Unit {0}
CountsFrom payload n (event ∷ events) =
    CarriesNumber payload n event.payload × CountsFrom payload (n + 1) events

numbered-CarriesNumber : (payload : Text) (n : ℕ) → CarriesNumber payload n (numbered payload n)
unfolding numbered
numbered-CarriesNumber payload n = record {
  numeral = digits n n;
  carries = refl;
  decimal = digits-IsDecimal n n (omega arith);
}

-- What the loop has published when `left` events are left.
record Numbered (flags : Flags) (sequence left : ℕ) (rounds : List Round) (out : Exit × List Event)
    : Type 0 where
  payloads : CountsFrom flags.payload sequence out.1
  few : length out.1 ≤ left
  complete : out.0 ≡ finished ↔ length out.1 ≡ left
  ends : left ≤ length rounds → out.0 ≢ running

produce_none :
    (flags : Flags) (sequence : ℕ)
    → goes_on flags.count sequence ≡ true
    → produce_from flags [] sequence ≡ (running, [])
unfolding produce_from
produce_none flags sequence more = rw more refl

produce_stops :
    (flags : Flags) (rounds : List Round) (sequence : ℕ)
    → goes_on flags.count sequence ≡ false
    → produce_from flags rounds sequence ≡ (finished, [])
unfolding produce_from
produce_stops flags [] sequence over = rw over refl
produce_stops flags (round ∷ rounds) sequence over = rw over refl

-- A round in which the loop goes on.
produce_round :
    (flags : Flags) (round : Round) (rounds : List Round) (sequence : ℕ)
    → goes_on flags.count sequence ≡ true
    → let later = produce_from flags rounds (sequence + 1) in
      (produce_from flags (round ∷ rounds) sequence ≡ (failed, []))
      ⊎ ((id : Text) × (produce_from flags (round ∷ rounds) sequence
            ≡ (later.0, event_of flags sequence id ∷ later.1)))
unfolding produce_from
produce_round flags round rounds sequence more = rw more (by_id (new_message_id round.random))
  where
    later : Exit × List Event
    later = produce_from flags rounds (sequence + 1)

    by_failure :
        (id : Text) (failure : Option Manager.ManagerError)
        → let out : Exit × List Event = elim failure [
          | some _ ↦ (failed, [])
          | none ↦ (later.0, event_of flags sequence id ∷ later.1)
        ] in
          (out ≡ (failed, []))
          ⊎ ((id : Text) × (out ≡ (later.0, event_of flags sequence id ∷ later.1)))
    by_failure id none = inr (id, refl)
    by_failure id (some e) = inl refl

    by_id :
        (made : Result ClientError Text)
        → let out : Exit × List Event = elim made [
          | err _ ↦ (failed, [])
          | ok id ↦ elim (Manager.publish round.random round.world (event_of flags sequence id)).0 [
            | some _ ↦ (failed, [])
            | none ↦ (later.0, event_of flags sequence id ∷ later.1)
          ]
        ] in
          (out ≡ (failed, []))
          ⊎ ((id : Text) × (out ≡ (later.0, event_of flags sequence id ∷ later.1)))
    by_id (err e) = inl refl
    by_id (ok id) =
        by_failure id (Manager.publish round.random round.world (event_of flags sequence id)).0

goes_on_iff : (n sequence : ℕ) → goes_on (pos (suc n)) sequence ≡ true ↔ sequence ≤ suc n
unfolding goes_on
goes_on_iff n sequence = ground arith

goes_on_over : (n sequence : ℕ) → suc n < sequence → goes_on (pos (suc n)) sequence ≡ false
goes_on_over n sequence h = elim (Bool-cases (goes_on (pos (suc n)) sequence)) [
  | inl more ↦ absurd (omega (arith, (goes_on_iff n sequence).0 more))
  | inr over ↦ over
]

one_more-Numbered :
    (flags : Flags) (sequence left : ℕ) (id : Text) (round : Round) (rounds : List Round)
    (later : Exit × List Event)
    → Numbered flags (sequence + 1) left rounds later
    → Numbered flags sequence
        (suc left)
        (round ∷ rounds)
        (later.0, event_of flags sequence id ∷ later.1)
unfolding event_of
one_more-Numbered flags sequence left id round rounds later k = record {
  payloads = (numbered-CarriesNumber flags.payload sequence, k.payloads);
  few = omega (arith, k.few);
  complete = (λ q. omega (arith, k.complete.0 q), λ q. k.complete.1 (omega arith));
  ends = λ h. k.ends (omega arith);
}

produce_from-Numbered :
    (flags : Flags) (n : ℕ) (rounds : List Round) (sequence left : ℕ)
    → flags.count ≡ pos (suc n)
    → sequence + left ≡ suc (suc n)
    → Numbered flags sequence left rounds (produce_from flags rounds sequence)
produce_from-Numbered flags n rounds sequence zero count e =
    let over = ap (λ c. goes_on c sequence) count ∙ goes_on_over n sequence (omega arith) in
    rw (produce_stops flags rounds sequence over) (record {
      payloads = tt;
      few = omega arith;
      complete = (λ _. refl, λ _. refl);
      ends = λ _ q. cc;
    })
produce_from-Numbered flags n [] sequence (suc left) count e =
    let more = ap (λ c. goes_on c sequence) count ∙ (goes_on_iff n sequence).1 (omega arith) in
    rw (produce_none flags sequence more) (record {
      payloads = tt;
      few = omega arith;
      complete = (λ q. absurd (cc), λ q. absurd (omega arith));
      ends = λ h. absurd (omega arith);
    })
produce_from-Numbered flags n (round ∷ rounds) sequence (suc left) count e =
    let more = ap (λ c. goes_on c sequence) count ∙ (goes_on_iff n sequence).1 (omega arith) in
    elim (produce_round flags round rounds sequence more) [
      | inl stops ↦ rw stops (record {
        payloads = tt;
        few = omega arith;
        complete = (λ q. absurd (cc), λ q. absurd (omega arith));
        ends = λ _ q. cc;
      })
      | inr (id, step) ↦ rw step (
          one_more-Numbered flags sequence left id round rounds _
            (produce_from-Numbered flags n rounds (sequence + 1) left count (omega arith)))
    ]

-- A producer that is to publish so many events, at least one, publishes no more than that, and its events
-- carry the payload with the decimal numbers from 1 on, in order. It ends its loop exactly if it has published
-- all of them, and with as many rounds as events it ends in one way or the other.
pub produce-numbered :
    (flags : Flags) (n : ℕ) (rounds : List Round)
    → flags.count ≡ pos (suc n)
    → let out = produce flags rounds in
      CountsFrom flags.payload 1 out.1
      × (length out.1 ≤ suc n)
      × (out.0 ≡ finished ↔ length out.1 ≡ suc n)
      × (suc n ≤ length rounds → out.0 ≢ running)
unfolding produce
produce-numbered flags n rounds count =
    let k = produce_from-Numbered flags n rounds 1 (suc n) count (omega arith) in
    (k.payloads, k.few, k.complete, k.ends)
