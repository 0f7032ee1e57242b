-- ===== src/EventBus/Order.antt =====
-- What a subscriber of master_api/src/services/evolution_event_bus.py finds in its queue.
use gigaevo_platform.Prelude.{
  ℕ, ◌+◌, String, ◌≡◌, refl, sym, ap, ◌∙◌, inl, inr, true, false, Option, none, some, List, [], ◌∷◌,
  arith, eq_iff, if◌then◌else◌, Bool-cases, get_or, keep, All, All-mono, All-keep,
}
use gigaevo_platform.Prelude.Eq.{◌==◌, string_eq, nat_eq}
use mathlib.Core.Path.{subst}
use gigaevo_platform.Prelude.Dict.{Dict, get, put, get-put}
use gigaevo_platform.EventBus.{
  Event, Queue, EventBus, pop, set_queues, queues_of, sequence_of, offered, publish, subscribe,
  is_other, close_queues, discard, take_next, aclose, take_item, anext, empty_bus,
}
use gigaevo_platform.EventBus.Queues.{IsCurrent, offer_all-IsCurrent, take_item-IsCurrent}

-- One call on the bus.
pub data Call (P : Type 0) : Type 0 where
  publish_call : String → String → Option P → Call P
  subscribe_call : String → Call P
  aclose_call anext_call : String → ℕ → Call P

get-pop :
    {V : Type 0} (d : Dict V) (k j : String) → get (pop d k) j ≡ (if k == j then none else get d j)
unfolding get pop
get-pop [] k j = ground arith
get-pop ((i, v) ∷ d) k j = ground (arith, eq_iff k j, eq_iff i k, eq_iff i j, get-pop d k j)

module _ {P : Type 0} where
  abbrev pub AllCurrent : EventBus P → Type 0
  AllCurrent bus =
      (id : String) → All (IsCurrent bus.queue_size (sequence_of bus id)) (queues_of bus id)

  -- The sets of all ids, after the set of one was put.
  put-AllCurrent :
      (size last : ℕ) (subs : Dict (List (Queue P))) (id j : String) (queues : List (Queue P))
      → ((id ≡ j) → All (IsCurrent size last) queues)
      → All (IsCurrent size last) (get_or (get subs j) [])
      → All (IsCurrent size last) (get_or (get (put subs id queues) j) [])
  put-AllCurrent size last subs id j queues new old = elim (Bool-cases (id == j)) [
    | inl same ↦ rw (get-put subs id j queues, same) (new ((string_eq.test_iff id j).0 same))
    | inr other ↦ rw (get-put subs id j queues, other) old
  ]

  -- The sets of all ids, after one id was dropped.
  pop-AllCurrent :
      (size last : ℕ) (subs : Dict (List (Queue P))) (id j : String)
      → All (IsCurrent size last) (get_or (get subs j) [])
      → All (IsCurrent size last) (get_or (get (pop subs id) j) [])
  pop-AllCurrent size last subs id j old = elim (Bool-cases (id == j)) [
    | inl same ↦ rw (get-pop subs id j, same) tt
    | inr other ↦ rw (get-pop subs id j, other) old
  ]

  -- The sets of all ids after a call that leaves the numbers alone and puts a set that is current.
  set-AllCurrent :
      (bus : EventBus P) (id : String) (queues : List (Queue P))
      → AllCurrent bus
      → All (IsCurrent bus.queue_size (sequence_of bus id)) queues
      → AllCurrent (set_queues bus id queues)
  set-AllCurrent bus id queues h new j =
      put-AllCurrent bus.queue_size (sequence_of bus j) bus.subscribers id j queues
        (λ e. subst (λ i. All (IsCurrent bus.queue_size (sequence_of bus i)) queues) e new) (h j)

  close-AllCurrent :
      (bus : EventBus P) (id : String) (queues : List (Queue P))
      → AllCurrent bus
      → All (IsCurrent bus.queue_size (sequence_of bus id)) queues
      → AllCurrent (close_queues bus id queues)
  close-AllCurrent bus id [] h new j =
      pop-AllCurrent bus.queue_size (sequence_of bus j) bus.subscribers id j (h j)
  close-AllCurrent bus id (q ∷ queues) h new j = set-AllCurrent bus id (q ∷ queues) h new j

  -- What the id has, when its set is there.
  found-IsCurrent :
      (bus : EventBus P) (id : String) (queues : List (Queue P))
      → AllCurrent bus
      → get bus.subscribers id ≡ some queues
      → All (IsCurrent bus.queue_size (sequence_of bus id)) queues
  found-IsCurrent bus id queues h e =
      subst (λ o. All (IsCurrent bus.queue_size (sequence_of bus id)) (get_or o [])) e (h id)

  subscribe-AllCurrent :
      (id : String) (bus : EventBus P) → AllCurrent bus → AllCurrent (subscribe id bus).1
  unfolding subscribe
  subscribe-AllCurrent id bus h =
      set-AllCurrent bus id ((record { id = bus.next_id; items = [] }) ∷ queues_of bus id) h
        ((inr (ground arith), (sequence_of bus id, refl)), h id)

  discard-AllCurrent :
      (id : String) (sub : ℕ) (found : Option (List (Queue P))) (bus : EventBus P)
      → get bus.subscribers id ≡ found
      → AllCurrent bus
      → AllCurrent (discard id sub found bus)
  discard-AllCurrent id sub none bus e h = h
  discard-AllCurrent id sub (some queues) bus e h =
      close-AllCurrent bus id (keep (is_other sub) queues) h (
        All-mono _ (IsCurrent bus.queue_size (sequence_of bus id)) (keep (is_other sub) queues)
          (λ q k. k.0)
          (All-keep (IsCurrent bus.queue_size (sequence_of bus id)) (is_other sub) queues
            (found-IsCurrent bus id queues h e)))

  aclose-AllCurrent :
      (id : String) (sub : ℕ) (bus : EventBus P) → AllCurrent bus → AllCurrent (aclose id sub bus)
  unfolding aclose
  aclose-AllCurrent id sub bus h = discard-AllCurrent id sub (get bus.subscribers id) bus refl h

  take_next-AllCurrent :
      (id : String) (sub : ℕ) (found : Option (List (Queue P))) (bus : EventBus P)
      → get bus.subscribers id ≡ found
      → AllCurrent bus
      → AllCurrent (take_next id sub found bus).1
  take_next-AllCurrent id sub none bus e h = h
  take_next-AllCurrent id sub (some queues) bus e h =
      set-AllCurrent bus id (take_item sub queues).1 h (
        take_item-IsCurrent bus.queue_size (sequence_of bus id) sub queues
          (found-IsCurrent bus id queues h e))

  anext-AllCurrent :
      (id : String) (sub : ℕ) (bus : EventBus P) → AllCurrent bus → AllCurrent (anext id sub bus).1
  unfolding anext
  anext-AllCurrent id sub bus h = take_next-AllCurrent id sub (get bus.subscribers id) bus refl h

  none-IsCurrent :
      (size last : ℕ) (subs : Dict (List (Queue P))) (id j : String)
      → get subs id ≡ none
      → (id == j) ≡ true
      → All (IsCurrent size last) (get_or (get subs j) [])
  none-IsCurrent size last subs id j e same =
      subst (λ o. All (IsCurrent size last) (get_or o []))
        (sym e ∙ ap (get subs) ((string_eq.test_iff id j).0 same)) tt

  -- The sets after an id's number went up by one and its queues were offered the event.
  offered-AllCurrent :
      (id j : String) (e : Event P) (found : Option (List (Queue P))) (bus : EventBus P)
      → get bus.subscribers id ≡ found
      → e.sequence ≡ sequence_of bus id + 1
      → AllCurrent bus
      → All
          (IsCurrent bus.queue_size
            (get_or (get (put bus.sequences id (sequence_of bus id + 1)) j) 0))
          (get_or (get (offered id e bus.queue_size found bus.subscribers) j) [])
  offered-AllCurrent id j e none bus f k h = elim (Bool-cases (id == j)) [
    | inl same ↦ none-IsCurrent bus.queue_size _ bus.subscribers id j f same
    | inr other ↦ rw (get-put bus.sequences id j, other) (h j)
  ]
  offered-AllCurrent id j e (some queues) bus f k h = elim (Bool-cases (id == j)) [
    | inl same ↦
        rw (get-put bus.sequences id j, get-put bus.subscribers id j, same)
          (offer_all-IsCurrent bus.queue_size (sequence_of bus id) e queues k
            (found-IsCurrent bus id queues h f))
    | inr other ↦ rw (get-put bus.sequences id j, get-put bus.subscribers id j, other) (h j)
  ]

  publish-AllCurrent :
      (empty : P) (id event_type : String) (payload : Option P) (bus : EventBus P)
      → (event_type == "") ≡ false
      → AllCurrent bus
      → AllCurrent (publish empty id event_type payload bus).1
  unfolding publish
  publish-AllCurrent empty id event_type payload bus t h j =
      rw t (offered-AllCurrent id j _ (get bus.subscribers id) bus refl refl h)

  -- A call publishes no event without a type, as no caller does.
  abbrev pub HasType : Call P → Type 0
  HasType (publish_call id event_type payload) = (event_type == "") ≡ false
  HasType _ = Unit

  abbrev pub after : P → List (Call P) → EventBus P → EventBus P
  after empty [] bus = bus
  after empty (publish_call id event_type payload ∷ calls) bus =
      after empty calls (publish empty id event_type payload bus).1
  after empty (subscribe_call id ∷ calls) bus = after empty calls (subscribe id bus).1
  after empty (aclose_call id sub ∷ calls) bus = after empty calls (aclose id sub bus)
  after empty (anext_call id sub ∷ calls) bus = after empty calls (anext id sub bus).1

  after-AllCurrent :
      (empty : P) (calls : List (Call P)) (bus : EventBus P)
      → All HasType calls
      → AllCurrent bus
      → AllCurrent (after empty calls bus)
  after-AllCurrent empty [] bus t h = h
  after-AllCurrent empty (publish_call id event_type payload ∷ calls) bus t h =
      after-AllCurrent empty calls (publish empty id event_type payload bus).1 t.1
        (publish-AllCurrent empty id event_type payload bus t.0 h)
  after-AllCurrent empty (subscribe_call id ∷ calls) bus t h =
      after-AllCurrent empty calls (subscribe id bus).1 t.1 (subscribe-AllCurrent id bus h)
  after-AllCurrent empty (aclose_call id sub ∷ calls) bus t h =
      after-AllCurrent empty calls (aclose id sub bus) t.1 (aclose-AllCurrent id sub bus h)
  after-AllCurrent empty (anext_call id sub ∷ calls) bus t h =
      after-AllCurrent empty calls (anext id sub bus).1 t.1 (anext-AllCurrent id sub bus h)

  -- After any calls on a new bus, none of which publishes an event without a type, the queue of
  -- every subscriber of every evolution is within its bound, if it has one, and holds events with
  -- consecutive sequence numbers that end with the evolution's last.
  pub after-latest :
      (empty : P) (size : ℕ) (calls : List (Call P)) (id : String)
      → All HasType calls
      → let bus = after empty calls (empty_bus size) in
        All (IsCurrent bus.queue_size (sequence_of bus id)) (queues_of bus id)
  unfolding get
  after-latest empty size calls id t = after-AllCurrent empty calls (empty_bus size) t (λ j. tt) id
