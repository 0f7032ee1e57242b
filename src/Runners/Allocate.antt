-- ===== src/Runners/Allocate.antt =====
-- master_api/src/services/database_service.py: the two transactions that give a runner to an
-- experiment. `locked` are the ids of the runners whose rows another transaction has locked, which
-- the search skips; on a row asked for by its id, the transaction waits instead.
use gigaevo_platform.Prelude.{
  ℕ, String, Bool, ◌&&◌, Option, none, some, List, [], ◌∷◌, ltb, leb, if◌then◌else◌, keep,
}
use gigaevo_platform.Prelude.Eq.{string_eq, nat_eq}
use gigaevo_platform.Experiments.{Experiment, update_where}
use gigaevo_platform.Runners.{
  Runner, Pool, busy, first_row, is_free, in_service, is_unlocked, count_active, get_runner,
  update_runner,
}

abbrev pub mark_busy : String → ℕ → Runner → Runner
mark_busy e now r = record r {
  status = busy;
  current_experiment_id = some e;
  last_heartbeat = some now;
}

abbrev pub assign : String → ℕ → Experiment → Experiment
assign runner_id now e = record e { assigned_runner_id = some runner_id; updated_at = now }

-- The loop of `_pick_runner_with_capacity`, with `best` and `best_active`.
unfoldable pub pick_loop : List Experiment → ℕ → Option Runner → ℕ → List Runner → Option Runner
pick_loop es limit best best_active [] = best
pick_loop es limit best best_active (r ∷ rs) =
    let active = count_active es r.id none in
    let better = ltb active limit && ltb active best_active in
    pick_loop es limit (if better then some r else best) (if better then active else best_active) rs

unfoldable pub pick_runner_with_capacity : List String → ℕ → Pool → Option Runner
unfolding pick_loop
pick_runner_with_capacity locked limit pool =
    pick_loop pool.experiments limit none limit
      (keep (λ r. in_service r && is_unlocked locked r) pool.runners)

abbrev pub pick_free : List String → Pool → Option Runner
pick_free locked pool = first_row (keep (λ r. is_free r && is_unlocked locked r) pool.runners)

-- The writes on the runner that was found, and on the experiment's row, if there is one.
abbrev pub occupy : String → ℕ → Option Runner → Pool → Option Runner × Pool
occupy e now none pool = (none, pool)
occupy e now (some r) pool = (
  some (mark_busy e now r),
  record {
    runners = update_runner r.id (mark_busy e now) pool.runners;
    experiments = update_where e (assign r.id now) pool.experiments;
  },
)

abbrev pub picked : ℕ → List String → Pool → Option Runner
picked limit locked pool =
    if leb limit 1 then pick_free locked pool else pick_runner_with_capacity locked limit pool

unfoldable pub allocate_runner_for_experiment :
    ℕ → List String → String → ℕ → Pool → Option Runner × Pool
unfolding pick_runner_with_capacity update_runner update_where
allocate_runner_for_experiment limit locked e now pool =
    occupy e now (picked limit locked pool) pool

-- The row asked for, if it may be given to the experiment.
abbrev pub admits : ℕ → List Experiment → Runner → Bool
admits limit es r =
    if leb limit 1 then is_free r else in_service r && ltb (count_active es r.id none) limit

abbrev pub admitted : ℕ → List Experiment → Option Runner → Option Runner
admitted limit es none = none
admitted limit es (some r) = if admits limit es r then some r else none

unfoldable pub allocate_specific_runner_for_experiment :
    ℕ → String → String → ℕ → Pool → Option Runner × Pool
unfolding get_runner count_active update_runner update_where
allocate_specific_runner_for_experiment limit runner_id e now pool =
    occupy e now (admitted limit pool.experiments (get_runner pool.runners runner_id)) pool
