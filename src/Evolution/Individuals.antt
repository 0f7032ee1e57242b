-- ===== src/Evolution/Individuals.antt =====
-- `create_evolution`, `update_status` and `record_individual` of
-- master_api/src/services/evolution_service.py. Saving an individual to Memory changes nothing here, and
-- its failures are swallowed, so it is left out.
use gigaevo_platform.Prelude.{
  ℕ, String, Bool, true, false, ◌||◌, Option, none, some, List, [], ◌∷◌, ltb, if◌then◌else◌,
  or_else, get_or,
}
use gigaevo_platform.Prelude.Eq.{string_eq, nat_eq, contains}
use gigaevo_platform.Prelude.Dict.{Dict, get}
use gigaevo_platform.Prelude.Result.{Result, ok, err}
use gigaevo_platform.EventBus.{publish}
use gigaevo_platform.Evolution.{
  EvolutionStatus, running, paused, completed, failed, cancelled, EvolutionRecord, Individual,
  status_payload, individual_payload, best_payload, created_payload, Failure, persist_failed,
  unknown_objectives, no_objective, individual_not_found, World, filled, object_key, get_evolution,
  get_individual, store_individual, announce, persist,
}
use gigaevo_platform.Evolution.Pareto.{Scores, wins}

-- The event of a status.
abbrev pub status_event_type : EvolutionStatus → String
status_event_type running = "generation_started"
status_event_type paused = "paused"
status_event_type completed = "completed"
status_event_type failed = "failed"
status_event_type cancelled = "cancelled"
status_event_type _ = "status_changed"

-- The optional arguments of `update_status`.
pub record Patch : Type 0 where
  pub error_message : Option String
  pub current_generation : Option ℕ
  pub best_individual_id : Option String

abbrev pub patched : EvolutionStatus → Patch → EvolutionRecord → EvolutionRecord
patched status p r = record r {
  status = status;
  error_message = or_else p.error_message r.error_message;
  current_generation = get_or p.current_generation r.current_generation;
  best_individual_id = or_else p.best_individual_id r.best_individual_id;
}

-- The answers of the store and the time.
pub record Writes : Type 0 where
  pub individual_stored : Bool
  pub record_stored : Bool
  pub now : ℕ

module _ {S : Type 0} where
  -- `create_evolution`, on a record that is made from the request with a new id.
  unfoldable pub create_evolution :
      Writes → EvolutionRecord → World S → Result Failure EvolutionRecord × World S
  unfolding publish object_key
  create_evolution u r w =
      persist u.record_stored u.now r.evolution_id "created"
        (λ kept. created_payload kept.status kept.name) r w

  abbrev pub update_found :
      Bool
      → ℕ
      → String
      → EvolutionStatus
      → Patch
      → Result Failure EvolutionRecord
      → World S
      → Result Failure EvolutionRecord × World S
  update_found up now id status p (err e) w = (err e, w)
  update_found up now id status p (ok r) w =
      persist up now id (status_event_type status)
        (λ kept.
          status_payload kept.status kept.current_generation p.best_individual_id p.error_message)
        (patched status p r) w

  unfoldable pub update_status :
      Bool
      → ℕ
      → String
      → EvolutionStatus
      → Patch
      → World S
      → Result Failure EvolutionRecord × World S
  unfolding get_evolution publish
  update_status up now id status p w = update_found up now id status p (get_evolution id w) w

  -- `_maybe_get_individual`: an individual that is not there is none, one that does not parse an error.
  abbrev pub or_missing : Result Failure (Individual S) → Result Failure (Option (Individual S))
  or_missing (ok i) = ok (some i)
  or_missing (err (individual_not_found i)) = ok none
  or_missing (err e) = err e

  abbrev pub maybe_get : String → Option String → World S → Result Failure (Option (Individual S))
  maybe_get id none w = ok none
  maybe_get id (some i) w = or_missing (get_individual id i w)

  unfoldable pub maybe_get_individual :
      String → Option String → World S → Result Failure (Option (Individual S))
  unfolding get_individual
  maybe_get_individual id individual_id w = maybe_get id (filled individual_id) w

  -- The names among the scores that are no objective.
  abbrev pub unknown : List String → Dict S → Bool
  unknown objectives [] = false
  unknown objectives ((name, score) ∷ scores) =
      if contains name objectives then unknown objectives scores else true

  -- The answer of the patch, and the event of a new best.
  abbrev pub finish_patch :
      Bool
      → String
      → Individual S
      → String
      → Result Failure EvolutionRecord × World S
      → Result Failure (Individual S) × World S
  finish_patch best_changed id i primary (err e, w) = (err e, w)
  finish_patch false id i primary (ok r, w) = (ok i, w)
  finish_patch true id i primary (ok r, w) =
      (ok i, announce id "best_updated" (best_payload i primary (get i.fitness_scores primary)) w)

  -- The record is written when a field of it changes.
  abbrev pub patch :
      Bool
      → Bool
      → Writes
      → String
      → EvolutionStatus
      → Individual S
      → String
      → World S
      → Result Failure (Individual S) × World S
  patch deeper best_changed u id status i primary w =
      let p : Patch = record {
        error_message = none;
        current_generation = if deeper then some i.generation else none;
        best_individual_id = if best_changed then some i.individual_id else none;
      } in
      let written =
        finish_patch best_changed id i primary
          (update_status u.record_stored u.now id status p w) in
      if deeper || best_changed then written else (ok i, w)

module _ {S : Type 0} ⦃F : Scores S⦄ where
  -- Against the best so far, if that has a score.
  abbrev pub beats : Bool → String → S → Option (Individual S) → Bool
  beats higher primary s none = true
  beats higher primary s (some best) = elim (get best.fitness_scores primary) [
    | none ↦ true
    | some t ↦ wins s t higher
  ]

  -- Whether the individual becomes the best; the best so far is read only if there is a new score.
  abbrev pub is_best :
      Bool → String → Option S → Result Failure (Option (Individual S)) → Result Failure Bool
  is_best higher primary none best = ok false
  is_best higher primary (some s) (err e) = err e
  is_best higher primary (some s) (ok best) = ok (beats higher primary s best)

  abbrev pub patch_if_known :
      Writes
      → String
      → EvolutionRecord
      → Individual S
      → String
      → Result Failure Bool
      → World S
      → Result Failure (Individual S) × World S
  patch_if_known u id r i primary (err e) w = (err e, w)
  patch_if_known u id r i primary (ok best_changed) w =
      patch (ltb r.current_generation i.generation) best_changed u id r.status i primary w

  -- The rest from `primary = evolution.objectives[0]` on, which raises on an empty list.
  abbrev pub compare_best :
      List String
      → Writes
      → String
      → EvolutionRecord
      → Individual S
      → World S
      → Result Failure (Individual S) × World S
  compare_best [] u id r i w = (err no_objective, w)
  compare_best (primary ∷ objectives) u id r i w =
      patch_if_known u id r i primary
        (is_best r.higher_is_better primary (get i.fitness_scores primary)
          (maybe_get_individual id r.best_individual_id w))
        w

  abbrev pub record_found :
      Writes
      → String
      → Individual S
      → Result Failure EvolutionRecord
      → World S
      → Result Failure (Individual S) × World S
  record_found u id i (err e) w = (err e, w)
  record_found u id i (ok r) w =
      let kept =
        announce id "individual_evaluated" (individual_payload i)
          (store_individual id i.individual_id i w) in
      let rest = compare_best r.objectives u id r i kept in
      if unknown r.objectives i.fitness_scores
      then (err unknown_objectives, w)
      else if u.individual_stored
      then rest
      else (err persist_failed, w)

  -- `record_individual`, on an individual that is made from the request with a new id.
  unfoldable pub record_individual :
      Writes → String → Individual S → World S → Result Failure (Individual S) × World S
  unfolding get update_status maybe_get_individual
  record_individual u id i w = record_found u id i (get_evolution id w) w
