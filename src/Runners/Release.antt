-- ===== src/Runners/Release.antt =====
-- master_api/src/services/database_service.py: the transactions that give a runner back. Each answers
-- whether it found something to release.
use gigaevo_platform.Prelude.{
  ℕ, String, Bool, true, false, Option, none, some, List, [], ◌∷◌, leb, if◌then◌else◌, or_else,
  ◌>>=◌, keep,
}
use gigaevo_platform.Prelude.Eq.{◌==◌, string_eq, nat_eq}
use gigaevo_platform.Experiments.{Experiment, get_experiment}
use gigaevo_platform.Runners.{
  Runner, Pool, ready, busy, has_current, count_active, first_active, get_runner, update_runner,
}

abbrev pub mark_ready : ℕ → Runner → Runner
mark_ready now r = record r {
  status = ready;
  current_experiment_id = none;
  last_heartbeat = some now;
}

-- `current_experiment_id in (None, finished_experiment_id)`
abbrev pub names_none_or : String → Option String → Bool
names_none_or e none = true
names_none_or e (some c) = c == e

abbrev pub mark_still_busy : List Experiment → String → ℕ → Runner → Runner
mark_still_busy es finished now r = record r {
  status = busy;
  current_experiment_id =
      if names_none_or finished r.current_experiment_id
      then first_active es r.id (some finished)
      else r.current_experiment_id;
  last_heartbeat = some now;
}

-- `_recompute_runner_release`
unfoldable pub recompute_runner_release : List Experiment → String → ℕ → Runner → Runner
unfolding count_active first_active
recompute_runner_release es finished now r =
    if leb (count_active es r.id (some finished)) 0
    then mark_ready now r
    else mark_still_busy es finished now r

abbrev pub write_row : (Runner → Runner) → Option Runner → Pool → Bool × Pool
write_row f none pool = (false, pool)
write_row f (some r) pool = (true, record pool { runners = update_runner r.id f pool.runners })

-- `scalar_one_or_none`, which raises `MultipleResultsFound` on more than one row.
pub data Rows : Type 0 where
  one : Option Runner → Rows
  several : Rows

abbrev pub scalar_one_or_none : List Runner → Rows
scalar_one_or_none [] = one none
scalar_one_or_none (r ∷ []) = one (some r)
scalar_one_or_none (r ∷ s ∷ rs) = several

-- `if assigned`: no runner id, or an empty one, is not looked up.
abbrev pub nonempty_id : Option String → Option String
nonempty_id none = none
nonempty_id (some id) = if id == "" then none else some id

abbrev pub assigned_runner : Pool → String → Option Runner
assigned_runner pool e = get_experiment pool.experiments e >>= λ x.
    nonempty_id x.assigned_runner_id >>= λ id. get_runner pool.runners id

abbrev pub free_current : ℕ → Rows → Pool → Bool × Pool
free_current now (one found) pool = write_row (mark_ready now) found pool
free_current now several pool = (false, pool)

abbrev pub free_slot : String → ℕ → Rows → Pool → Bool × Pool
free_slot e now (one found) pool =
    write_row (recompute_runner_release pool.experiments e now)
      (or_else found (assigned_runner pool e)) pool
free_slot e now several pool = (false, pool)

unfoldable pub release_runner_if_assigned : ℕ → String → ℕ → Pool → Bool × Pool
unfolding get_experiment get_runner update_runner recompute_runner_release
release_runner_if_assigned limit e now pool =
    let rows = scalar_one_or_none (keep (has_current e) pool.runners) in
    if leb limit 1 then free_current now rows pool else free_slot e now rows pool

abbrev pub holder : String → Option Runner → Option Runner
holder e none = none
holder e (some r) = if has_current e r then some r else none

unfoldable pub release_runner_by_id_if_experiment : ℕ → String → String → ℕ → Pool → Bool × Pool
unfolding get_runner update_runner recompute_runner_release
release_runner_by_id_if_experiment limit runner_id e now pool =
    let found = get_runner pool.runners runner_id in
    if leb limit 1
    then write_row (mark_ready now) (holder e found) pool
    else write_row (recompute_runner_release pool.experiments e now) found pool

unfoldable pub set_runner_ready : String → ℕ → Pool → Bool × Pool
unfolding get_runner update_runner
set_runner_ready runner_id now pool =
    write_row (mark_ready now) (get_runner pool.runners runner_id) pool
