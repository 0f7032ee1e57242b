-- ===== src/Evolution/Patched.antt =====
-- A patch of a stored evolution, in `record_individual` of
-- master_api/src/services/evolution_service.py.
use gigaevo_platform.Prelude.{
  ℕ, String, ◌≡◌, refl, sym, Bool, true, false, Option, none, some, arith, ltb, if◌then◌else◌,
  or_else, get_or,
}
use gigaevo_platform.Prelude.Eq.{string_eq, nat_eq, beq_refl}
use gigaevo_platform.Prelude.Dict.{get-put}
use Prim.Native.Nat.{max}
use mathlib.Core.Path.{subst}
use gigaevo_platform.Prelude.Result.{Result, ok, err}
use gigaevo_platform.EventBus.{publish, EventBus}
use gigaevo_platform.Evolution.{
  Payload, filled, EvolutionRecord, Individual, Failure, World, get_evolution, get_individual,
  individual_object_key, store_individual,
}
use gigaevo_platform.Evolution.Control.{stored_again}
use gigaevo_platform.Evolution.Individuals.{
  Patch, patched, Writes, update_found, update_status, maybe_get, maybe_get_individual,
  finish_patch, patch,
}

deeper_lem :
    (m n : ℕ) (deeper : Bool)
    → ltb m n ≡ deeper
    → get_or (if deeper then some n else none) m ≡ max m n
deeper_lem m n deeper h = ground arith

best_lem :
    (b : Bool) (new : String) (old : Option String)
    → or_else (if b then some new else none) old ≡ (if b then some new else old)
best_lem true new old = refl
best_lem false new old = refl

module _ {S : Type 0} where
  -- The individual and the record that stand behind the answer: the individual can be read, the generation is the larger, and the best is the new
  -- individual if the flag says so.
  abbrev pub Patched :
      Bool
      → String
      → Individual S
      → EvolutionRecord
      → World S
      → Result Failure (Individual S) × World S
      → Type 0
  Patched b id i r w (err e, w') = w'.evolutions ≡ w.evolutions
  Patched b id i r w (ok j, w') =
      (j ≡ i)
      × (get_individual id i.individual_id w' ≡ ok i)
      × ((r' : EvolutionRecord) × (get_evolution id w' ≡ ok r')
          × (r'.status ≡ r.status)
          × (r'.accepted_individual_id ≡ r.accepted_individual_id)
          × (r'.current_generation ≡ max r.current_generation i.generation)
          × (r'.best_individual_id ≡ (if b then some i.individual_id else r.best_individual_id)))

  finish_patch-Patched :
      (b up : Bool) (now : ℕ) (id : String) (i : Individual S) (primary : String) (p : Patch)
      → (r : EvolutionRecord) (w v : World S) → r.evolution_id ≡ id
      → w.evolutions ≡ v.evolutions
      → get_individual id i.individual_id w ≡ ok i
      → get_or p.current_generation r.current_generation ≡ max r.current_generation i.generation
      → or_else p.best_individual_id r.best_individual_id
        ≡ (if b then some i.individual_id else r.best_individual_id)
      → Patched b id i r v
          (finish_patch b id i primary (update_found up now id r.status p (ok r) w))
  unfolding get_evolution get_individual publish
  finish_patch-Patched b false now id i primary p r w v e same there g best = same
  finish_patch-Patched true true now id i primary p r w v e same there g best = (
    refl,
    there,
    (
      record (patched r.status p r) { updated_at = now },
      stored_again id (record (patched r.status p r) { updated_at = now }) w e,
      refl,
      refl,
      g,
      best,
    ),
  )
  finish_patch-Patched false true now id i primary p r w v e same there g best = (
    refl,
    there,
    (
      record (patched r.status p r) { updated_at = now },
      stored_again id (record (patched r.status p r) { updated_at = now }) w e,
      refl,
      refl,
      g,
      best,
    ),
  )

  -- A patch of some fields, on the record that is there.
  written-Patched :
      (deeper b : Bool) (u : Writes) (id : String) (i : Individual S) (primary : String)
      → (r : EvolutionRecord) (w v : World S) → get_evolution id w ≡ ok r
      → r.evolution_id ≡ id
      → w.evolutions ≡ v.evolutions
      → get_individual id i.individual_id w ≡ ok i
      → ltb r.current_generation i.generation ≡ deeper
      → let p : Patch = record {
        error_message = none;
        current_generation = if deeper then some i.generation else none;
        best_individual_id = if b then some i.individual_id else none;
      } in
        Patched b id i r v
          (finish_patch b id i primary (update_status u.record_stored u.now id r.status p w))
  unfolding update_status
  written-Patched deeper b u id i primary r w v h e same there d =
      let p : Patch = record {
        error_message = none;
        current_generation = if deeper then some i.generation else none;
        best_individual_id = if b then some i.individual_id else none;
      } in
      subst
        (λ found.
          Patched b id i r v (
            finish_patch b id i primary (update_found u.record_stored u.now id r.status p found w)))
        (sym h)
        (finish_patch-Patched b u.record_stored u.now id i primary p r w v e same there
          (deeper_lem r.current_generation i.generation deeper d)
          (best_lem b i.individual_id r.best_individual_id))

  pub patch-Patched :
      (deeper b : Bool) (u : Writes) (id : String) (i : Individual S) (primary : String)
      → (r : EvolutionRecord) (w v : World S) → get_evolution id w ≡ ok r
      → r.evolution_id ≡ id
      → w.evolutions ≡ v.evolutions
      → get_individual id i.individual_id w ≡ ok i
      → ltb r.current_generation i.generation ≡ deeper
      → Patched b id i r v (patch deeper b u id r.status i primary w)
  patch-Patched true b u id i primary r w v h e same there d =
      written-Patched true b u id i primary r w v h e same there d
  patch-Patched false true u id i primary r w v h e same there d =
      written-Patched false true u id i primary r w v h e same there d
  patch-Patched false false u id i primary r w v h e same there d =
      (refl, there, (r, h, refl, refl, deeper_lem r.current_generation i.generation false d, refl))

  -- Reading an individual does not look at the bus.
  maybe_get-bus :
      (id : String) (o : Option String) (w : World S) (bus : EventBus (Payload S))
      → maybe_get id o w ≡ maybe_get id o (record w { bus = bus })
  unfolding get_individual
  maybe_get-bus id none w bus = refl
  maybe_get-bus id (some i) w bus = refl

  pub maybe_get_individual-bus :
      (id : String) (o : Option String) (w : World S) (bus : EventBus (Payload S))
      → maybe_get_individual id o w ≡ maybe_get_individual id o (record w { bus = bus })
  unfolding maybe_get_individual
  maybe_get_individual-bus id o w bus = maybe_get-bus id (filled o) w bus

  pub stored_individual :
      (id : String) (i : Individual S) (w : World S)
      → get_individual id i.individual_id (store_individual id i.individual_id i w) ≡ ok i
  unfolding get_individual
  stored_individual id i w =
      let key = individual_object_key id i.individual_id in
      rw (get-put w.individuals key key, beq_refl key) refl
