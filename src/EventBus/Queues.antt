-- ===== src/EventBus/Queues.antt =====
-- One queue of master_api/src/services/evolution_event_bus.py, before and after one event.
use gigaevo_platform.Prelude.{
  ℕ, ◌+◌, ◌≤◌, ◌≡◌, ◌⊎◌, inl, inr, List, [], ◌∷◌, ◌++◌, arith, Bool-cases, length, drop, All,
  length-drop, length-append,
}
use gigaevo_platform.Prelude.Eq.{◌==◌, string_eq, nat_eq}
use gigaevo_platform.EventBus.{Event, Queue, put_nowait, offer, take_head, offer_all, take_item}

module _ {P : Type 0} where
  -- The items have the sequence numbers from `n + 1` on, one by one, to the last.
  abbrev pub Follows : ℕ → List (Event P) → ℕ → Type 0
  Follows n [] last = n ≡ last
  Follows n (e ∷ items) last = (e.sequence ≡ n + 1) × Follows (n + 1) items last

  -- A queue within its bound, with the latest events of the id and no gap among them.
  abbrev pub IsCurrent : ℕ → ℕ → Queue P → Type 0
  IsCurrent size last q =
      ((size ≡ 0) ⊎ (length q.items ≤ size)) × ((n : ℕ) × Follows n q.items last)

  Follows-append :
      (n last : ℕ) (items : List (Event P)) (e : Event P)
      → Follows n items last
      → e.sequence ≡ last + 1
      → Follows n (items ++ (e ∷ [])) (last + 1)
  Follows-append n last [] e h k = (ground arith, ground arith)
  Follows-append n last (i ∷ items) e h k = (h.0, Follows-append (n + 1) last items e h.1 k)

  Follows-drop :
      (n last : ℕ) (items : List (Event P))
      → Follows n items last
      → (m : ℕ) × Follows m (drop 1 items) last
  Follows-drop n last [] h = (n, h)
  Follows-drop n last (e ∷ items) h = (n + 1, h.1)

  -- On a queue within its bound, an event always comes in.
  offer_lem :
      (size : ℕ) (e : Event P) (items : List (Event P))
      → (size ≡ 0) ⊎ (length items ≤ size)
      → (((size ≡ 0) ⊎ (length items + 1 ≤ size)) × (offer size e items ≡ items ++ (e ∷ [])))
        ⊎ ((1 ≤ size) × (length items ≡ size) × (offer size e items ≡ drop 1 items ++ (e ∷ [])))
  unfolding offer put_nowait
  offer_lem size e items h = ground (arith, length-drop 1 items)

  offer-bound :
      (size : ℕ) (e : Event P) (items : List (Event P))
      → (size ≡ 0) ⊎ (length items ≤ size)
      → (size ≡ 0) ⊎ (length (offer size e items) ≤ size)
  offer-bound size e items h = elim (offer_lem size e items h) [
    | inl (room, same) ↦ rw same (ground (arith, length-append items (e ∷ [])))
    | inr (pos, full, same) ↦
        rw same (ground (arith, length-append (drop 1 items) (e ∷ []), length-drop 1 items))
  ]

  offer-Follows :
      (size n last : ℕ) (e : Event P) (items : List (Event P))
      → e.sequence ≡ last + 1
      → (size ≡ 0) ⊎ (length items ≤ size)
      → Follows n items last
      → (m : ℕ) × Follows m (offer size e items) (last + 1)
  offer-Follows size n last e items k b h = elim (offer_lem size e items b) [
    | inl (room, same) ↦ rw same (n, Follows-append n last items e h k)
    | inr (pos, full, same) ↦
        let (m, f) = Follows-drop n last items h in
        rw same (m, Follows-append m last (drop 1 items) e f k)
  ]

  pub offer_all-IsCurrent :
      (size last : ℕ) (e : Event P) (queues : List (Queue P))
      → e.sequence ≡ last + 1
      → All (IsCurrent size last) queues
      → All (IsCurrent size (last + 1)) (offer_all size e queues)
  offer_all-IsCurrent size last e [] k h = tt
  offer_all-IsCurrent size last e (q ∷ queues) k ((b, (n, f)), hs) = (
    (offer-bound size e q.items b, offer-Follows size n last e q.items k b f),
    offer_all-IsCurrent size last e queues k hs,
  )

  take_head-IsCurrent :
      (size last id : ℕ) (items : List (Event P)) (queues : List (Queue P))
      → IsCurrent size last (record { id = id; items = items })
      → All (IsCurrent size last) queues
      → All (IsCurrent size last) (take_head id items queues).1
  take_head-IsCurrent size last id [] queues h hs = (h, hs)
  take_head-IsCurrent size last id (e ∷ items) queues (b, (n, f)) hs =
      ((ground (arith, b), (n + 1, f.1)), hs)

  pub take_item-IsCurrent :
      (size last sub : ℕ) (queues : List (Queue P))
      → All (IsCurrent size last) queues
      → All (IsCurrent size last) (take_item sub queues).1
  take_item-IsCurrent size last sub [] h = tt
  take_item-IsCurrent size last sub (q ∷ queues) h = elim (Bool-cases (q.id == sub)) [
    | inl own ↦ rw own (take_head-IsCurrent size last q.id q.items queues h.0 h.1)
    | inr other ↦ rw other (h.0, take_item-IsCurrent size last sub queues h.1)
  ]
