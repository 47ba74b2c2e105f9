-- ===== src/Broker/Invariant/CloseLoop.antt =====
-- The loop of `Broker.Close` over the subscriptions.
use mathlib.Core.Option.{some-injective}
use distributed_event_bus.Prelude.{
  ℕ, ◌≡◌, refl, sym, ap, ◌∙◌, subst, Bool, true, false, List, [], ◌∷◌, Option, none, some, set,
  get_elem?, All, contains, nat_key, text_key, arith, if◌then◌else◌, Bool-cases, inl, inr, All-set,
  All-get_elem?,
}
use distributed_event_bus.Broker.State.{Subscription}
use distributed_event_bus.Broker.Subscription.{close_queue}
use distributed_event_bus.Broker.Publish.{close_all}
use distributed_event_bus.Broker.Invariant.Defs.{IsQueue}
use distributed_event_bus.Prelude.{get_elem?-set_self, get_elem?-set_ne, nat_eq, nat_eq_iff}
use distributed_event_bus.Broker.Invariant.Calls.{close_queue-IsQueue}
use distributed_event_bus.Broker.Invariant.Standings.{get_elem?-lt}

close_queue_idem :
    (s : Subscription) (size : ℕ)
    → IsQueue size s
    → close_queue false (close_queue false s) ≡ close_queue false s
unfolding close_queue
close_queue_idem s size h = ground arith

pub close_all-none :
    (r : ℕ) (rs : List ℕ) (heap : List Subscription)
    → get_elem? heap r ≡ none
    → close_all (r ∷ rs) heap ≡ close_all rs heap
unfolding close_all
close_all-none r rs heap e = rw (e, close_all)

pub close_all-some :
    (r : ℕ) (rs : List ℕ) (heap : List Subscription) (s : Subscription)
    → get_elem? heap r ≡ some s
    → close_all (r ∷ rs) heap ≡ close_all rs (set heap r (close_queue false s))
unfolding close_all
close_all-some r rs heap s e = rw (e, close_all)

-- The heap after `close_all`, entry by entry.
pub close_all-get_elem? :
    (size : ℕ) (rs : List ℕ) (heap : List Subscription) (q : ℕ) (s : Subscription)
    → All (IsQueue size) heap
    → get_elem? heap q ≡ some s
    → get_elem? (close_all rs heap) q ≡ some (if contains q rs then close_queue false s else s)
unfolding contains
close_all-get_elem? size [] heap q s h g = unfold close_all in g
close_all-get_elem? size (r ∷ rs) heap q s h g =
    found (λ hp x k e. close_all-get_elem? size rs hp q x k e) (get_elem? heap r) refl
  where
    again :
        (b : Bool) (t : Subscription)
        → IsQueue size t
        → (if b then close_queue false (close_queue false t) else close_queue false t)
          ≡ close_queue false t
    again true t k = close_queue_idem t size k
    again false t k = refl

    found :
        ((hp : List Subscription) (x : Subscription)
          → All (IsQueue size) hp
          → get_elem? hp q ≡ some x
          → get_elem? (close_all rs hp) q ≡ some (if contains q rs then close_queue false x else x))
        → (o : Option Subscription) → get_elem? heap r ≡ o
        → get_elem? (close_all (r ∷ rs) heap) q
          ≡ some (if contains q (r ∷ rs) then close_queue false s else s)
    found ih none e = elim (Bool-cases (nat_eq r q)) [
      | inl same ↦ absurd (cc (e, g, (nat_eq_iff r q).0 same))
      | inr other ↦ rw (close_all-none r rs heap e) (rw other (ih heap s h g))
    ]
    found ih (some t) e =
        let t' = close_queue false t in
        let h' =
          All-set (IsQueue size) heap r t' h
            (close_queue-IsQueue false size t (All-get_elem? (IsQueue size) heap r t h e)).0 in
        rw (close_all-some r rs heap t e) (elim (Bool-cases (nat_eq r q)) [
          | inl same ↦
              let e1 : r ≡ q = (nat_eq_iff r q).0 same in
              let e2 : t ≡ s = some-injective _ _ (sym e ∙ ap (get_elem? heap) e1 ∙ g) in
              let g' : get_elem? (set heap r t') q ≡ some t' =
                subst (λ (x : ℕ). get_elem? (set heap r t') x ≡ some t') e1
                  (get_elem?-set_self heap r t' (get_elem?-lt heap r t e)) in
              rw same (
                ih (set heap r t') t' h' g'
                ∙ ap some (again (contains q rs) t (All-get_elem? (IsQueue size) heap r t h e))
                ∙ ap (λ x. some (close_queue false x)) e2)
          | inr other ↦ rw other (
              ih (set heap r t') s h'
                (get_elem?-set_ne heap r q t' (λ x. cc (other, (nat_eq_iff r q).1 x)) ∙ g))
        ])
