-- ===== src/EventBus.antt =====
-- master_api/src/services/evolution_event_bus.py: the bus that carries an evolution's events to its
-- subscribers. A subscriber's queue has a number in place of its identity; `P` is the type of payloads,
-- and `empty` is `{}`.
use gigaevo_platform.Prelude.{
  ℕ, zero, suc, ◌+◌, ◌-◌, ◌≤◌, ◌<◌, String, append_text, ◌≡◌, refl, sym, ap, ◌∙◌, ◌≢◌, ◌↔◌, ◌⊎◌,
  inl, inr, Bool, true, false, not, ◌&&◌, ◌||◌, Option, none, some, List, [], ◌∷◌, ◌++◌, map, arith,
  eq_iff, ltb, leb, if◌then◌else◌, Bool-cases, Option-cases, or_else, is_some, ◌>>=◌, get_or,
  length, take, drop, keep, All, All-mono, All-zip, All-append, All-keep,
}
use gigaevo_platform.Prelude.Eq.{Eq, ◌==◌, string_eq, nat_eq, beq_refl, contains}
use gigaevo_platform.Prelude.Dict.{Dict, get, put, get-put}
pub mod Queues
pub mod Order

-- The time of emission is left out.
pub record Event (P : Type 0) : Type 0 where
  pub event_type : String
  pub evolution_id : String
  pub payload : P
  pub sequence : ℕ

-- A registered `asyncio.Queue`.
pub record Queue (P : Type 0) : Type 0 where
  pub id : ℕ
  pub items : List (Event P)

pub record EventBus (P : Type 0) : Type 0 where
  pub queue_size : ℕ
  pub subscribers : Dict (List (Queue P))
  pub sequences : Dict ℕ
  pub next_id : ℕ

-- `d.pop(k, None)`
unfoldable pub pop : {V : Type 0} → Dict V → String → Dict V
pop [] k = []
pop ((j, v) ∷ d) k = let rest = pop d k in if j == k then rest else (j, v) ∷ rest

-- What a subscriber that asks for an event meets: the end, an empty queue to wait on, or an event.
pub data Received (P : Type 0) : Type 0 where
  stopped waiting : Received P
  received : Event P → Received P

module _ {P : Type 0} where
  abbrev pub empty_bus : ℕ → EventBus P
  empty_bus size = record { queue_size = size; subscribers = []; sequences = []; next_id = 0 }

  -- `asyncio.Queue.put_nowait`, which raises `QueueFull` on a queue of that many items; a size of 0 is
  -- no bound.
  unfoldable pub put_nowait : ℕ → Event P → List (Event P) → Option (List (Event P))
  put_nowait size e items =
      if ltb 0 size && leb size (length items) then none else some (items ++ (e ∷ []))

  -- The loop's body: on a full queue the oldest item makes room.
  unfoldable pub offer : ℕ → Event P → List (Event P) → List (Event P)
  unfolding put_nowait
  offer size e items = elim (put_nowait size e items) [
    | some longer ↦ longer
    | none ↦ elim (put_nowait size e (drop 1 items)) [ some longer ↦ longer | none ↦ drop 1 items ]
  ]

  abbrev pub offer_all : ℕ → Event P → List (Queue P) → List (Queue P)
  offer_all size e [] = []
  offer_all size e (q ∷ queues) =
      (record q { items = offer size e q.items }) ∷ offer_all size e queues

  -- The set of an id, changed where it stands.
  abbrev pub set_queues : EventBus P → String → List (Queue P) → EventBus P
  set_queues bus id queues = record bus { subscribers = put bus.subscribers id queues }

  abbrev pub queues_of : EventBus P → String → List (Queue P)
  queues_of bus id = get_or (get bus.subscribers id) []

  abbrev pub sequence_of : EventBus P → String → ℕ
  sequence_of bus id = get_or (get bus.sequences id) 0

  -- The event goes to every queue of the id, if it has any.
  abbrev pub offered :
      String → Event P → ℕ → Option (List (Queue P)) → Dict (List (Queue P)) → Dict (List (Queue P))
  offered id e size none subs = subs
  offered id e size (some queues) subs = put subs id (offer_all size e queues)

  abbrev pub deliver : String → Event P → EventBus P → EventBus P
  deliver id e bus = record bus {
    subscribers = offered id e bus.queue_size (get bus.subscribers id) bus.subscribers;
  }

  -- `publish`: the number is taken before the event is made, and an empty event type is refused then.
  unfoldable pub publish :
      P → String → String → Option P → EventBus P → Option (Event P) × EventBus P
  unfolding offer
  publish empty id event_type payload bus =
      let sequence = sequence_of bus id + 1 in
      let numbered : EventBus P = record bus { sequences = put bus.sequences id sequence } in
      let e : Event P = record {
        event_type = event_type;
        evolution_id = id;
        payload = get_or payload empty;
        sequence = sequence;
      } in
      if event_type == "" then (none, numbered) else (some e, deliver id e numbered)

  -- `subscribe`
  unfoldable pub subscribe : String → EventBus P → ℕ × EventBus P
  subscribe id bus =
      let q : Queue P = record { id = bus.next_id; items = [] } in
      (bus.next_id, record (set_queues bus id (q ∷ queues_of bus id)) { next_id = bus.next_id + 1 })

  abbrev is_other : ℕ → Queue P → Bool
  is_other sub q = not (q.id == sub)

  abbrev close_queues : EventBus P → String → List (Queue P) → EventBus P
  close_queues bus id [] = record bus { subscribers = pop bus.subscribers id }
  close_queues bus id (q ∷ queues) = set_queues bus id (q ∷ queues)

  abbrev pub discard : String → ℕ → Option (List (Queue P)) → EventBus P → EventBus P
  discard id sub none bus = bus
  discard id sub (some queues) bus = close_queues bus id (keep (is_other sub) queues)

  -- `_Subscription.aclose`, with the `_on_close` of its queue.
  unfoldable pub aclose : String → ℕ → EventBus P → EventBus P
  unfolding pop
  aclose id sub bus = discard id sub (get bus.subscribers id) bus

  -- The first item of a queue, taken off it: `asyncio.Queue.get`, which waits on an empty queue.
  abbrev pub take_head : ℕ → List (Event P) → List (Queue P) → Received P × List (Queue P)
  take_head id [] queues = (waiting, (record { id = id; items = [] }) ∷ queues)
  take_head id (e ∷ items) queues = (received e, (record { id = id; items = items }) ∷ queues)

  abbrev pub take_item : ℕ → List (Queue P) → Received P × List (Queue P)
  take_item sub [] = (stopped, [])
  take_item sub (q ∷ queues) =
      let (r, rest) = take_item sub queues in
      if q.id == sub then take_head q.id q.items queues else (r, q ∷ rest)

  abbrev pub take_next : String → ℕ → Option (List (Queue P)) → EventBus P → Received P × EventBus P
  take_next id sub none bus = (stopped, bus)
  take_next id sub (some queues) bus =
      let (r, rest) = take_item sub queues in (r, set_queues bus id rest)

  -- `_Subscription.__anext__`
  unfoldable pub anext : String → ℕ → EventBus P → Received P × EventBus P
  anext id sub bus = take_next id sub (get bus.subscribers id) bus

  unfoldable pub subscriber_count : String → EventBus P → ℕ
  subscriber_count id bus = length (queues_of bus id)
