-- ===== src/Samples/Evolutions.antt =====
-- A bus and an evolution with two individuals. Scores are numbers.
use gigaevo_platform.Prelude.{ℕ, ◌≡◌, refl, true, false, none, some, List, [], ◌∷◌, arith, ltb, All}
use gigaevo_platform.Prelude.Eq.{string_eq, nat_eq}
use gigaevo_platform.Prelude.Result.{ok}
use gigaevo_platform.EventBus.{empty_bus, queues_of, sequence_of}
use gigaevo_platform.EventBus.Queues.{IsCurrent}
use gigaevo_platform.EventBus.Order.{
  Call, publish_call, subscribe_call, after, HasType, after-latest,
}
use gigaevo_platform.Evolution.{
  running, accepted, EvolutionRecord, Individual, intact, World, object_key, get_evolution,
}
use gigaevo_platform.Evolution.Control.{pause, control, leads, FollowsTable, control_lem}
use gigaevo_platform.Evolution.Pareto.{Scores, IsFront, pareto_front, pareto_front-keep}
use gigaevo_platform.Evolution.Accept.{Request, Memory, accept_individual}
use gigaevo_platform.Evolution.Winner.{Ends, accept_individual-Ends}
use gigaevo_platform.Evolution.Individuals.{Writes, record_individual}
use gigaevo_platform.Evolution.Listing.{page_of, start_of}
use gigaevo_platform.Evolution.Paging.{page_of-next}
use gigaevo_platform.Prelude.{length, drop, ◌++◌}
use gigaevo_platform.Evolution.Best.{Recorded, record_individual-Recorded}

abbrev calls : List (Call ℕ)
calls =
    subscribe_call "e"
    ∷ publish_call "e" "created" none
    ∷ publish_call "e" "paused" none
    ∷ publish_call "e" "resumed" none
    ∷ []

typed : All HasType calls
typed = (tt, (refl, (refl, (refl, tt))))

after-latest_example :
    let bus = after 0 calls (empty_bus 2) in
    All (IsCurrent bus.queue_size (sequence_of bus "e")) (queues_of bus "e")
after-latest_example = after-latest 0 2 calls "e" typed

less-irreflexive : (a : ℕ) → ltb a a ≡ false
less-irreflexive a = ground arith

instance abbrev numbers : Scores ℕ
numbers = record { less = ltb; lowest = 0; highest = 1000; less_irreflexive = less-irreflexive }

abbrev adam : Individual ℕ
adam = record {
  individual_id = "a";
  generation = 1;
  chain_content = "{}";
  fitness_scores = ("speed", 3) ∷ [];
  parent_ids = [];
  mutation_kind = none;
  accepted = false;
  created_at = 0;
}

abbrev eve : Individual ℕ
eve = record adam { individual_id = "b"; fitness_scores = ("speed", 5) ∷ [] }

abbrev evolution : EvolutionRecord
evolution = record {
  evolution_id = "e";
  name = "first";
  status = running;
  created_at = 0;
  updated_at = 0;
  tags = [];
  seed_chains = [];
  affected_chain_ids = [];
  higher_is_better = true;
  objectives = "speed" ∷ [];
  current_generation = 0;
  best_individual_id = none;
  accepted_individual_id = none;
  accepted_at = none;
  accepted_chain_id = none;
  previous_version = none;
  new_version = none;
  new_version_id = none;
  error_message = none;
}

abbrev won : EvolutionRecord
won = record evolution { status = accepted; accepted_individual_id = some "a" }

abbrev world_with : EvolutionRecord → World ℕ
world_with r = record {
  evolutions = (object_key "e", intact r) ∷ [];
  individuals = [];
  bus = empty_bus 2;
}

there : (r : EvolutionRecord) → get_evolution "e" (world_with r) ≡ ok r
unfolding get_evolution object_key
there r = refl

abbrev ask : Request
ask = record {
  chain_id_to_update = none;
  note = none;
  now = 7;
  individual_stored = true;
  record_stored = true;
}

abbrev no_memory : Memory
no_memory = none

abbrev writes : Writes
writes = record { individual_stored = true; record_stored = true; now = 7 }

control_lem_example :
    FollowsTable
      (leads pause running)
      true
      7
      "e"
      evolution
      (world_with evolution)
      (control pause true 7 "e" (world_with evolution))
control_lem_example =
    control_lem pause true 7 "e" evolution (world_with evolution) (there evolution) refl

accept_individual-Ends_example :
    Ends "e" "a"
      (world_with evolution)
      (accept_individual no_memory "e" "a" ask (world_with evolution))
accept_individual-Ends_example =
    accept_individual-Ends no_memory "e" "a" ask evolution (world_with evolution) (there evolution)
      refl

record_individual-Recorded_example :
    Recorded "e" eve evolution
      (world_with evolution)
      (record_individual writes "e" eve (world_with evolution))
record_individual-Recorded_example =
    record_individual-Recorded writes "e" eve evolution (world_with evolution) (there evolution)
      refl

pareto_front-keep_example :
    IsFront true
      ("speed" ∷ [])
      (adam ∷ eve ∷ [])
      (pareto_front true ("speed" ∷ []) (adam ∷ eve ∷ []))
pareto_front-keep_example = pareto_front-keep true ("speed" ∷ []) (adam ∷ eve ∷ [])

abbrev second : EvolutionRecord
second = record evolution { evolution_id = "f" }

first_page : (page_of none 1 (evolution ∷ second ∷ [])).next_cursor ≡ some "e"
unfolding page_of start_of
first_page = refl

page_of-next_example :
    (length (page_of none 1 (evolution ∷ second ∷ [])).items ≡ 1)
    × ((page_of none 1 (evolution ∷ second ∷ [])).items
          ++ drop (start_of (some "e") (evolution ∷ second ∷ [])) (evolution ∷ second ∷ [])
        ≡ drop (start_of none (evolution ∷ second ∷ [])) (evolution ∷ second ∷ []))
page_of-next_example =
    page_of-next none 1 (evolution ∷ second ∷ []) "e" (refl, refl, (refl, refl, tt)) first_page
