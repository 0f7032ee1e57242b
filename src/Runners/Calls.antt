-- ===== src/Runners/Calls.antt =====
-- What the master API does to the pool, as a sequence of transactions: allocations, releases, health
-- checks, and the updates of an experiment's status.
use gigaevo_platform.Prelude.{ℕ, String, List, [], ◌∷◌}
use gigaevo_platform.Prelude.Eq.{string_eq, nat_eq}
use gigaevo_platform.Experiments.{ExperimentStatus, update_experiment_status}
use gigaevo_platform.Runners.{Pool}
use gigaevo_platform.Runners.Allocate.{
  allocate_runner_for_experiment, allocate_specific_runner_for_experiment,
}
use gigaevo_platform.Runners.Release.{
  release_runner_if_assigned, release_runner_by_id_if_experiment, set_runner_ready,
}
use gigaevo_platform.Runners.Health.{Health, check_health}

pub data PoolCall : Type 0 where
  allocate : List String → String → PoolCall
  allocate_specific : String → String → PoolCall
  release_assigned : String → PoolCall
  release_by_id : String → String → PoolCall
  set_ready : String → PoolCall
  health : String → Health → PoolCall
  set_experiment : String → ExperimentStatus → PoolCall

unfoldable pub perform : ℕ → PoolCall → ℕ → Pool → Pool
unfolding allocate_runner_for_experiment allocate_specific_runner_for_experiment
    release_runner_if_assigned release_runner_by_id_if_experiment set_runner_ready check_health
    update_experiment_status
perform limit (allocate locked e) now pool =
    (allocate_runner_for_experiment limit locked e now pool).1
perform limit (allocate_specific id e) now pool =
    (allocate_specific_runner_for_experiment limit id e now pool).1
perform limit (release_assigned e) now pool = (release_runner_if_assigned limit e now pool).1
perform limit (release_by_id id e) now pool =
    (release_runner_by_id_if_experiment limit id e now pool).1
perform limit (set_ready id) now pool = (set_runner_ready id now pool).1
perform limit (health id h) now pool = check_health id h now pool
perform limit (set_experiment e s) now pool = record pool {
  experiments = (update_experiment_status e s now pool.experiments).1;
}

-- The calls, each with its time, one after the other.
unfoldable pub perform_all : ℕ → List (PoolCall × ℕ) → Pool → Pool
unfolding perform
perform_all limit [] pool = pool
perform_all limit ((call, now) ∷ calls) pool =
    let next = perform limit call now pool in perform_all limit calls next
