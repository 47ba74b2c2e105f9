-- ===== src/Manager/RecoveryLaws.antt =====
-- How a manager comes back to a broker.
use mathlib.Core.Option.{some-injective}
use distributed_event_bus.Prelude.{
  ℕ, zero, suc, ◌+◌, ◌*◌, ◌^◌, ◌≤◌, ◌≡◌, ◌⊎◌, refl, sym, ap, ◌∙◌, List, [], ◌∷◌, some, ltb,
  get_elem?, arith, if◌then◌else◌, Bool-cases, inl, inr, text_key,
}
use distributed_event_bus.Manager.Endpoints.{Manager, connect}
use distributed_event_bus.Manager.Recovery.{Try, first_delay, next_delay, reconnect}

-- The time before the attempt `n + 1`: it doubles from 100 milliseconds up to 6.4 seconds.
abbrev pub backoff : ℕ → ℕ
backoff n = if ltb n 6 then 100 * 2 ^ n else 6400

next_delay-backoff : (n : ℕ) → next_delay (backoff n) ≡ backoff (suc n)
unfolding next_delay
next_delay-backoff zero = refl
next_delay-backoff (suc zero) = refl
next_delay-backoff (suc (suc zero)) = refl
next_delay-backoff (suc (suc (suc zero))) = refl
next_delay-backoff (suc (suc (suc (suc zero)))) = refl
next_delay-backoff (suc (suc (suc (suc (suc zero))))) = refl
next_delay-backoff (suc (suc (suc (suc (suc (suc n)))))) = ground arith

module _ (try : Try) (tries : List Try) (delay : ℕ) (m : Manager) where
  -- A round of `reconnect`.
  data Round : Type 0 where
    no_wait : (reconnect (try ∷ tries) delay m).1.1 ≡ [] → Round
    one_wait : (reconnect (try ∷ tries) delay m).1.1 ≡ delay ∷ [] → Round
    more_waits :
        (reconnect (try ∷ tries) delay m).1.1
          ≡ delay ∷ (reconnect tries (next_delay delay) (connect try.network m).0).1.1
        → Round

  reconnect-Round : Round
  unfolding reconnect
  reconnect-Round = elim (Bool-cases try.closed_before) [
    | inl q ↦ no_wait (rw q refl)
    | inr q1 ↦ elim (Bool-cases (connect try.network m).1) [
      | inl q ↦ no_wait (rw (q1, q) refl)
      | inr q2 ↦ elim (Bool-cases try.closed_after) [
        | inl q ↦ one_wait (rw (q1, q2, q) refl)
        | inr q3 ↦ more_waits (rw (q1, q2, q3) refl)
      ]
    ]
  ]

backoff-low : (n : ℕ) → first_delay ≤ backoff n
backoff-low zero = omega arith
backoff-low (suc zero) = omega arith
backoff-low (suc (suc zero)) = omega arith
backoff-low (suc (suc (suc zero))) = omega arith
backoff-low (suc (suc (suc (suc zero)))) = omega arith
backoff-low (suc (suc (suc (suc (suc zero))))) = omega arith
backoff-low (suc (suc (suc (suc (suc (suc n)))))) = ground arith

backoff-high : (n : ℕ) → backoff n ≤ 6400
backoff-high zero = omega arith
backoff-high (suc zero) = omega arith
backoff-high (suc (suc zero)) = omega arith
backoff-high (suc (suc (suc zero))) = omega arith
backoff-high (suc (suc (suc (suc zero)))) = omega arith
backoff-high (suc (suc (suc (suc (suc zero))))) = omega arith
backoff-high (suc (suc (suc (suc (suc (suc n)))))) = ground arith

head_or_tail :
    (x d i : ℕ) (xs : List ℕ)
    → get_elem? (x ∷ xs) i ≡ some d
    → ((i ≡ 0) × (d ≡ x)) ⊎ ((j : ℕ) × (i ≡ suc j) × (get_elem? xs j ≡ some d))
head_or_tail x d zero xs h = inl (refl, sym (some-injective _ _ h))
head_or_tail x d (suc j) xs h = inr (j, refl, h)

delays-backoff :
    (tries : List Try) (n i d : ℕ) (m : Manager)
    → get_elem? (reconnect tries (backoff n) m).1.1 i ≡ some d
    → d ≡ backoff (n + i)
delays-backoff [] n i d m h = absurd (unfold reconnect in cc (h))
delays-backoff (try ∷ tries) n i d m h = elim (reconnect-Round try tries (backoff n) m) [
  | no_wait e ↦ absurd (cc (ap (λ xs. get_elem? xs i) e, h))
  | one_wait e ↦ elim (head_or_tail (backoff n) d i [] (sym (ap (λ xs. get_elem? xs i) e) ∙ h)) [
    | inl (z, q) ↦ q ∙ ap backoff (omega arith)
    | inr (j, _, q) ↦ absurd (cc)
  ]
  | more_waits e ↦
      let m' = (connect try.network m).0 in
      elim (head_or_tail (backoff n) d i (reconnect tries (next_delay (backoff n)) m').1.1
        (sym (ap (λ xs. get_elem? xs i) e) ∙ h)) [
          | inl (z, q) ↦ q ∙ ap backoff (omega arith)
          | inr (j, z, q) ↦
              delays-backoff tries (suc n) j d m'
                (ap (λ x. get_elem? (reconnect tries x m').1.1 j) (sym (next_delay-backoff n)) ∙ q)
              ∙ ap backoff (omega arith)
        ]
]

-- However often `reconnect` fails, the time that it waits after its failure number `i`, from 0 on, is 100
-- milliseconds doubled `i` times, and 6.4 seconds from the seventh failure on.
pub reconnect-backoff :
    (tries : List Try) (i d : ℕ) (m : Manager)
    → get_elem? (reconnect tries first_delay m).1.1 i ≡ some d
    → (d ≡ backoff i) × (first_delay ≤ d) × (d ≤ 6400)
reconnect-backoff tries i d m h =
    let e = delays-backoff tries 0 i d m h ∙ ap backoff (omega arith) in
    (e, rw e (backoff-low i), rw e (backoff-high i))
