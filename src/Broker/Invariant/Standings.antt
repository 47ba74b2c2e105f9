-- ===== src/Broker/Invariant/Standings.antt =====
-- What the operations do to the standings of the subscriptions, their queues left aside.
use distributed_event_bus.Prelude.{
  ℕ, zero, suc, ◌<◌, ◌≡◌, refl, ap, List, [], ◌∷◌, ◌++◌, some, length, set, get_elem?, arith,
}
use distributed_event_bus.Broker.State.{Subscription}
use distributed_event_bus.Broker.Invariant.Defs.{Standing, standing, standings}

pub get_elem?-standings :
    (heap : List Subscription) (r : ℕ) (s : Subscription)
    → get_elem? heap r ≡ some s
    → get_elem? (standings heap) r ≡ some (standing s)
get_elem?-standings [] r s h = absurd (cc)
get_elem?-standings (x ∷ xs) zero s h = ground arith
get_elem?-standings (x ∷ xs) (suc r) s h = get_elem?-standings xs r s h

pub standings-set :
    (heap : List Subscription) (r : ℕ) (s : Subscription)
    → standings (set heap r s) ≡ set (standings heap) r (standing s)
standings-set [] r s = refl
standings-set (x ∷ xs) zero s = refl
standings-set (x ∷ xs) (suc r) s = ap (◌∷◌ (standing x)) (standings-set xs r s)

set_same {ℓ} :
    {A : Type ℓ} (xs : List A) (r : ℕ) (a : A) → get_elem? xs r ≡ some a → set xs r a ≡ xs
set_same [] r a h = refl
set_same (x ∷ xs) zero a h = ground arith
set_same (x ∷ xs) (suc r) a h = ap (◌∷◌ x) (set_same xs r a h)

-- A change of a queue is none of a standing.
pub standings-set_same :
    (heap : List Subscription) (r : ℕ) (s s' : Subscription)
    → get_elem? heap r ≡ some s
    → standing s' ≡ standing s
    → standings (set heap r s') ≡ standings heap
standings-set_same heap r s s' h e =
    rw (standings-set heap r s', e)
      (set_same (standings heap) r (standing s) (get_elem?-standings heap r s h))

pub standings-append :
    (heap : List Subscription) (s : Subscription)
    → standings (heap ++ (s ∷ [])) ≡ standings heap ++ (standing s ∷ [])
standings-append [] s = refl
standings-append (x ∷ xs) s = ap (◌∷◌ (standing x)) (standings-append xs s)

pub length-standings : (heap : List Subscription) → length (standings heap) ≡ length heap
length-standings [] = refl
length-standings (x ∷ xs) = ap suc (length-standings xs)

pub get_elem?-append_left {ℓ} :
    {A : Type ℓ} (xs ys : List A) (r : ℕ) (a : A)
    → get_elem? xs r ≡ some a
    → get_elem? (xs ++ ys) r ≡ some a
get_elem?-append_left [] ys r a h = absurd (cc)
get_elem?-append_left (x ∷ xs) ys zero a h = h
get_elem?-append_left (x ∷ xs) ys (suc r) a h = get_elem?-append_left xs ys r a h

pub get_elem?-append_end {ℓ} :
    {A : Type ℓ} (xs : List A) (a : A) → get_elem? (xs ++ (a ∷ [])) (length xs) ≡ some a
get_elem?-append_end [] a = refl
get_elem?-append_end (x ∷ xs) a = get_elem?-append_end xs a

pub get_elem?-lt {ℓ} :
    {A : Type ℓ} (xs : List A) (r : ℕ) (a : A) → get_elem? xs r ≡ some a → r < length xs
get_elem?-lt [] r a h = absurd (cc)
get_elem?-lt (x ∷ xs) zero a h = omega arith
get_elem?-lt (x ∷ xs) (suc r) a h = omega (arith, get_elem?-lt xs r a h)

-- A standing belongs to a subscription.
pub standings-get_elem? :
    (heap : List Subscription) (r : ℕ) (st : Standing)
    → get_elem? (standings heap) r ≡ some st
    → (s : Subscription) × (get_elem? heap r ≡ some s) × (standing s ≡ st)
standings-get_elem? [] r st h = absurd (cc)
standings-get_elem? (x ∷ xs) zero st h = (x, refl, ground arith)
standings-get_elem? (x ∷ xs) (suc r) st h = standings-get_elem? xs r st h
