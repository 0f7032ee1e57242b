-- ===== src/Evolution.antt =====
-- master_api/src/services/evolution_service.py over the event bus: evolution records, their life cycle
-- and the acceptance of an individual. `S` is the type of fitness scores, a Python float. Every write to
-- the object store is given as the answer it has, and Memory as a function that may refuse.
use gigaevo_platform.Prelude.{
  ℕ, zero, suc, ◌+◌, ◌-◌, ◌≤◌, ◌<◌, String, append_text, ◌≡◌, refl, sym, ap, ◌∙◌, ◌≢◌, ◌↔◌, ◌⊎◌,
  inl, inr, Bool, true, false, not, ◌&&◌, ◌||◌, Option, none, some, List, [], ◌∷◌, ◌++◌, map, arith,
  eq_iff, ltb, leb, if◌then◌else◌, Bool-cases, Option-cases, or_else, is_some, get_or, length, take,
  drop, keep, All, All-mono, All-zip, All-append, All-keep,
}
use gigaevo_platform.Prelude.Eq.{Eq, ◌==◌, string_eq, nat_eq, beq_refl, contains}
use gigaevo_platform.Prelude.Dict.{Dict, get, put, get-put}
use gigaevo_platform.Prelude.Result.{Result, ok, err}
use gigaevo_platform.EventBus.{EventBus, publish}
pub mod Control
pub mod Accept
pub mod Winner
pub mod Pareto
pub mod Individuals
pub mod Patched
pub mod Best
pub mod Listing
pub mod Paging

pub data EvolutionStatus : Type 0 where
  queued running paused completed failed cancelled accepted : EvolutionStatus

-- `EvolutionResponse`, less the fields that the service only passes on: the description, the settings of
-- the run and of its launch. A seed is its `memory_chain_id`.
pub record EvolutionRecord : Type 0 where
  pub evolution_id : String
  pub name : String
  pub status : EvolutionStatus
  pub created_at : ℕ
  pub updated_at : ℕ
  pub tags : List String
  pub seed_chains : List (Option String)
  pub affected_chain_ids : List String
  pub higher_is_better : Bool
  pub objectives : List String
  pub current_generation : ℕ
  pub best_individual_id : Option String
  pub accepted_individual_id : Option String
  pub accepted_at : Option ℕ
  pub accepted_chain_id : Option String
  pub previous_version : Option ℕ
  pub new_version : Option ℕ
  pub new_version_id : Option String
  pub error_message : Option String

-- `IndividualResponse`, less the id of its evolution, which its key has.
pub record Individual (S : Type 0) : Type 0 where
  pub individual_id : String
  pub generation : ℕ
  pub chain_content : String
  pub fitness_scores : Dict S
  pub parent_ids : List String
  pub mutation_kind : Option String
  pub accepted : Bool
  pub created_at : ℕ

-- What `promote_evolved_chain` answers.
pub record Promotion : Type 0 where
  pub chain_id : String
  pub previous_version : Option ℕ
  pub new_version : Option ℕ
  pub new_version_id : Option String

-- The payloads of the events.
pub data Payload (S : Type 0) : Type 0 where
  no_payload : Payload S
  created_payload : EvolutionStatus → String → Payload S
  status_payload : EvolutionStatus → ℕ → Option String → Option String → Payload S
  individual_payload : Individual S → Payload S
  best_payload : Individual S → String → Option S → Payload S
  accepted_payload : String → EvolutionRecord → Option String → Payload S

-- An object of the store: one that parses, or one that does not.
pub data Stored {ℓ} (A : Type ℓ) : Type ℓ where
  intact : A → Stored A
  corrupt : Stored A

pub data Failure : Type 0 where
  evolution_not_found individual_not_found : String → Failure
  record_corrupt persist_failed unknown_objectives no_objective : Failure
  cannot : EvolutionStatus → Failure
  accept_refused : String → Failure

pub record World (S : Type 0) : Type 0 where
  pub evolutions : Dict (Stored EvolutionRecord)
  pub individuals : Dict (Stored (Individual S))
  pub bus : EventBus (Payload S)

-- `x in (None, "")`
abbrev pub filled : Option String → Option String
filled none = none
filled (some s) = if s == "" then none else some s

abbrev memory_chain_ids : List (Option String) → List String
memory_chain_ids [] = []
memory_chain_ids (seed ∷ seeds) = elim (filled seed) [
  | none ↦ memory_chain_ids seeds
  | some id ↦ id ∷ memory_chain_ids seeds
]

-- `_effective_affected_chain_ids`
unfoldable pub effective_affected_chain_ids : EvolutionRecord → List String
effective_affected_chain_ids r = elim r.affected_chain_ids [
  | [] ↦ memory_chain_ids r.seed_chains
  | id ∷ ids ↦ id ∷ ids
]

-- `_object_key` and `_individual_object_key`
unfoldable pub object_key : String → String
object_key id = append_text "evolutions/" (append_text id ".json")

unfoldable pub individual_object_key : String → String → String
individual_object_key id individual_id =
    append_text "evolutions/"
      (append_text id (append_text "/individuals/" (append_text individual_id ".json")))

-- An object that must be there.
abbrev pub parsed {ℓ} : {A : Type ℓ} → Failure → Option (Stored A) → Result Failure A
parsed missing none = err missing
parsed missing (some corrupt) = err record_corrupt
parsed missing (some (intact a)) = ok a

abbrev pub is_terminal : EvolutionStatus → Bool
is_terminal completed = true
is_terminal failed = true
is_terminal cancelled = true
is_terminal accepted = true
is_terminal _ = false

abbrev pub can_pause : EvolutionStatus → Bool
can_pause queued = true
can_pause running = true
can_pause _ = false

abbrev pub is_paused : EvolutionStatus → Bool
is_paused paused = true
is_paused _ = false

module _ {S : Type 0} where
  -- `get_evolution`
  unfoldable pub get_evolution : String → World S → Result Failure EvolutionRecord
  unfolding get
  get_evolution id w = parsed (evolution_not_found id) (get w.evolutions (object_key id))

  -- `get_individual`
  unfoldable pub get_individual : String → String → World S → Result Failure (Individual S)
  get_individual id individual_id w =
      parsed (individual_not_found individual_id)
        (get w.individuals (individual_object_key id individual_id))

  abbrev pub store_evolution : EvolutionRecord → World S → World S
  store_evolution r w = record w {
    evolutions = put w.evolutions (object_key r.evolution_id) (intact r);
  }

  abbrev pub store_individual : String → String → Individual S → World S → World S
  store_individual id individual_id i w = record w {
    individuals = put w.individuals (individual_object_key id individual_id) (intact i);
  }

  -- `self._bus.publish`
  abbrev pub announce : String → String → Payload S → World S → World S
  announce id event_type payload w = record w {
    bus = (publish no_payload id event_type (some payload) w.bus).1;
  }

  -- `_persist` at a time, and, if the store takes the record, the event; else the error.
  abbrev pub persist :
      Bool
      → ℕ
      → String
      → String
      → (EvolutionRecord → Payload S)
      → EvolutionRecord
      → World S
      → Result Failure EvolutionRecord × World S
  persist false now id event_type payload r w = (err persist_failed, w)
  persist true now id event_type payload r w =
      let kept : EvolutionRecord = record r { updated_at = now } in
      (ok kept, announce id event_type (payload kept) (store_evolution kept w))

  abbrev pub status_event : EvolutionRecord → Payload S
  status_event r = status_payload r.status r.current_generation none none

  -- The body that `cancel_evolution`, `pause_evolution` and `resume_evolution` have in common.
  abbrev pub change_status :
      (EvolutionStatus → Bool)
      → EvolutionStatus
      → String
      → Bool
      → ℕ
      → String
      → Result Failure EvolutionRecord
      → World S
      → Result Failure EvolutionRecord × World S
  change_status allowed new event_type up now id (err e) w = (err e, w)
  change_status allowed new event_type up now id (ok r) w =
      if allowed r.status
      then persist up now id event_type status_event (record r { status = new }) w
      else (err (cannot r.status), w)

  unfoldable pub cancel_evolution :
      Bool → ℕ → String → World S → Result Failure EvolutionRecord × World S
  unfolding get_evolution publish
  cancel_evolution up now id w =
      change_status (λ s. not (is_terminal s)) cancelled "cancelled" up now id (get_evolution id w)
        w

  unfoldable pub pause_evolution :
      Bool → ℕ → String → World S → Result Failure EvolutionRecord × World S
  unfolding get_evolution publish
  pause_evolution up now id w =
      change_status can_pause paused "paused" up now id (get_evolution id w) w

  unfoldable pub resume_evolution :
      Bool → ℕ → String → World S → Result Failure EvolutionRecord × World S
  unfolding get_evolution publish
  resume_evolution up now id w =
      change_status is_paused running "resumed" up now id (get_evolution id w) w
