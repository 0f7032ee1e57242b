-- ===== src/Runners/Limit.antt =====
-- The number of active experiments of each runner, under the calls on the pool.
use gigaevo_platform.Prelude.{
  ℕ, ◌+◌, ◌≤◌, ◌<◌, String, ◌≡◌, refl, sym, ap, true, false, ◌&&◌, Option, none, some, List, [],
  ◌∷◌, arith, eq_iff, ltb, leb, if◌then◌else◌, or_else, get_or, keep, All,
}
use gigaevo_platform.Prelude.Eq.{◌==◌, string_eq, nat_eq}
use mathlib.Core.Path.{subst}
use gigaevo_platform.Prelude.{if-elim, ltb→lt, and_right}
use gigaevo_platform.Experiments.{
  Experiment, ExperimentStatus, is_active_status, update_where, update_experiment_status,
}
use gigaevo_platform.Runners.{
  Runner, RunnerInstanceStatus, has_current, Pool, count_active, get_runner, in_service, is_free,
}
use gigaevo_platform.Runners.Allocate.{
  assign, occupy, pick_loop, pick_runner_with_capacity, picked, pick_free, admitted,
  allocate_runner_for_experiment, allocate_specific_runner_for_experiment,
}
use gigaevo_platform.Runners.Release.{
  free_current, free_slot, holder, assigned_runner, Rows, one, several, write_row, mark_ready,
  recompute_runner_release, scalar_one_or_none, release_runner_if_assigned,
  release_runner_by_id_if_experiment, set_runner_ready,
}
use gigaevo_platform.Runners.Fair.{admitted-admits, load, candidates, IsLeast, pick_loop-IsLeast}
use gigaevo_platform.Runners.Health.{
  Health, check_health, check_found, write_status, health_status, update_instance_status,
}
use gigaevo_platform.Runners.Calls.{
  PoolCall, allocate, allocate_specific, release_assigned, release_by_id, set_ready, health,
  set_experiment, perform, perform_all,
}

abbrev pub WithinLimit : ℕ → Pool → Type 0
WithinLimit limit pool = (id : String) → load pool.experiments id ≤ limit

-- The status that an experiment is set to does not occupy a runner.
abbrev pub Vacates : PoolCall → Type 0
Vacates (set_experiment e s) = is_active_status s ≡ false
Vacates _ = Unit

load-assign :
    (es : List Experiment) (e id other : String) (now : ℕ)
    → load (update_where e (assign id now) es) other
      ≤ load es other + (if id == other then 1 else 0)
unfolding count_active update_where
load-assign [] e id other now = omega arith
load-assign (x ∷ es) e id other now = ground (arith, load-assign es e id other now)

load-vacate :
    (es : List Experiment) (e other : String) (s : ExperimentStatus) (now : ℕ)
    → is_active_status s ≡ false
    → load (update_where e (λ x. record x { status = s; updated_at = now }) es) other
      ≤ load es other
unfolding count_active update_where
load-vacate [] e other s now h = omega arith
load-vacate (x ∷ es) e other s now h = ground (arith, h, load-vacate es e other s now h)

-- Below the limit before it takes the experiment, the runner is within the limit after.
occupy-WithinLimit :
    (limit : ℕ) (e : String) (now : ℕ) (found : Option Runner) (pool : Pool)
    → WithinLimit limit pool
    → ((r : Runner) → found ≡ some r → load pool.experiments r.id < limit)
    → WithinLimit limit (occupy e now found pool).1
occupy-WithinLimit limit e now none pool h room other = h other
occupy-WithinLimit limit e now (some r) pool h room other =
    ground (
      arith,
      load-assign pool.experiments e r.id other now,
      h other,
      room r refl,
      eq_iff r.id other,
    )

IsLeast-below :
    (es : List Experiment) (limit : ℕ) (rs : List Runner) (found : Option Runner)
    → IsLeast es limit rs found
    → (r : Runner) → found ≡ some r
    → load es r.id < limit
IsLeast-below es limit rs none h r p = cc
IsLeast-below es limit rs (some x) h r p =
    subst (λ y. load es y.id < limit) (ap (λ o. get_or o x) p) h.1

admitted-below :
    (limit : ℕ) (es : List Experiment) (found : Option Runner)
    → leb limit 1 ≡ false
    → (r : Runner) → admitted limit es found ≡ some r
    → load es r.id < limit
admitted-below limit es found shared r p =
    let roomy : (in_service r && ltb (load es r.id) limit) ≡ true =
      subst (λ b. (if b then is_free r else in_service r && ltb (load es r.id) limit) ≡ true) shared
        (admitted-admits limit es found r p).1 in
    ltb→lt (load es r.id) limit (and_right (in_service r) (ltb (load es r.id) limit) roomy)

picked-below :
    (limit : ℕ) (locked : List String) (pool : Pool)
    → leb limit 1 ≡ false
    → (r : Runner) → picked limit locked pool ≡ some r
    → load pool.experiments r.id < limit
unfolding pick_runner_with_capacity
picked-below limit locked pool shared r p =
    IsLeast-below pool.experiments limit (candidates locked pool)
      (pick_loop pool.experiments limit none limit (candidates locked pool))
      (pick_loop-IsLeast pool.experiments limit (candidates locked pool)) r
      (subst
        (λ b.
          (if b then pick_free locked pool else pick_runner_with_capacity locked limit pool)
          ≡ some r)
        shared p)

-- Writes on the rows of the runners alone.
write_row-experiments :
    (f : Runner → Runner) (found : Option Runner) (pool : Pool)
    → (write_row f found pool).1.experiments ≡ pool.experiments
write_row-experiments f none pool = refl
write_row-experiments f (some r) pool = refl

free_current-experiments :
    (now : ℕ) (rows : Rows) (pool : Pool)
    → (free_current now rows pool).1.experiments ≡ pool.experiments
free_current-experiments now (one found) pool = write_row-experiments (mark_ready now) found pool
free_current-experiments now several pool = refl

free_slot-experiments :
    (e : String) (now : ℕ) (rows : Rows) (pool : Pool)
    → (free_slot e now rows pool).1.experiments ≡ pool.experiments
free_slot-experiments e now (one found) pool =
    write_row-experiments (recompute_runner_release pool.experiments e now)
      (or_else found (assigned_runner pool e)) pool
free_slot-experiments e now several pool = refl

release_runner_if_assigned-experiments :
    (limit : ℕ) (e : String) (now : ℕ) (pool : Pool)
    → (release_runner_if_assigned limit e now pool).1.experiments ≡ pool.experiments
unfolding release_runner_if_assigned
release_runner_if_assigned-experiments limit e now pool =
    let rows = scalar_one_or_none (keep (has_current e) pool.runners) in
    if-elim (λ o. o.1.experiments ≡ pool.experiments) (leb limit 1) (free_current now rows pool)
      (free_slot e now rows pool) (λ b. free_current-experiments now rows pool)
      (λ b. free_slot-experiments e now rows pool)

release_runner_by_id_if_experiment-experiments :
    (limit : ℕ) (id e : String) (now : ℕ) (pool : Pool)
    → (release_runner_by_id_if_experiment limit id e now pool).1.experiments ≡ pool.experiments
unfolding release_runner_by_id_if_experiment
release_runner_by_id_if_experiment-experiments limit id e now pool =
    let found = get_runner pool.runners id in
    if-elim (λ o. o.1.experiments ≡ pool.experiments) (leb limit 1)
      (write_row (mark_ready now) (holder e found) pool)
      (write_row (recompute_runner_release pool.experiments e now) found pool)
      (λ b. write_row-experiments (mark_ready now) (holder e found) pool)
      (λ b. write_row-experiments (recompute_runner_release pool.experiments e now) found pool)

write_status-experiments :
    (id : String) (now : ℕ) (s : Option RunnerInstanceStatus) (pool : Pool)
    → (write_status id now s pool).experiments ≡ pool.experiments
unfolding update_instance_status
write_status-experiments id now none pool = refl
write_status-experiments id now (some s) pool = refl

check_found-experiments :
    (id : String) (h : Health) (now : ℕ) (found : Option Runner) (pool : Pool)
    → (check_found id h now found pool).experiments ≡ pool.experiments
check_found-experiments id h now none pool = refl
check_found-experiments id h now (some r) pool =
    write_status-experiments id now (health_status h r.status) pool

check_health-experiments :
    (id : String) (h : Health) (now : ℕ) (pool : Pool)
    → (check_health id h now pool).experiments ≡ pool.experiments
unfolding check_health
check_health-experiments id h now pool =
    check_found-experiments id h now (get_runner pool.runners id) pool

pub perform-WithinLimit :
    (limit : ℕ) (call : PoolCall) (now : ℕ) (pool : Pool)
    → 2 ≤ limit
    → Vacates call
    → WithinLimit limit pool
    → WithinLimit limit (perform limit call now pool)
unfolding perform allocate_runner_for_experiment allocate_specific_runner_for_experiment
    set_runner_ready update_experiment_status
perform-WithinLimit limit (allocate locked e) now pool l v h other =
    let shared : leb limit 1 ≡ false = ground (arith, l) in
    occupy-WithinLimit limit e now (picked limit locked pool) pool h
      (picked-below limit locked pool shared) other
perform-WithinLimit limit (allocate_specific id e) now pool l v h other =
    let shared : leb limit 1 ≡ false = ground (arith, l) in
    let found = get_runner pool.runners id in
    occupy-WithinLimit limit e now (admitted limit pool.experiments found) pool h
      (admitted-below limit pool.experiments found shared) other
perform-WithinLimit limit (release_assigned e) now pool l v h other =
    subst (λ es. load es other ≤ limit)
      (sym (release_runner_if_assigned-experiments limit e now pool)) (h other)
perform-WithinLimit limit (release_by_id id e) now pool l v h other =
    subst (λ es. load es other ≤ limit)
      (sym (release_runner_by_id_if_experiment-experiments limit id e now pool)) (h other)
perform-WithinLimit limit (set_ready id) now pool l v h other =
    subst (λ es. load es other ≤ limit)
      (sym (write_row-experiments (mark_ready now) (get_runner pool.runners id) pool)) (h other)
perform-WithinLimit limit (health id x) now pool l v h other =
    subst (λ es. load es other ≤ limit) (sym (check_health-experiments id x now pool)) (h other)
perform-WithinLimit limit (set_experiment e s) now pool l v h other =
    omega (arith, load-vacate pool.experiments e other s now v, h other)

-- With a limit of two or more, no sequence of allocations, releases, health checks and updates that
-- set an experiment to a status that occupies no runner brings any runner above the limit, if none
-- was above it.
pub perform_all-WithinLimit :
    (limit : ℕ) (calls : List (PoolCall × ℕ)) (pool : Pool)
    → 2 ≤ limit
    → All (λ call. Vacates call.0) calls
    → WithinLimit limit pool
    → WithinLimit limit (perform_all limit calls pool)
unfolding perform_all
perform_all-WithinLimit limit [] pool l v h = h
perform_all-WithinLimit limit ((call, now) ∷ calls) pool l v h =
    perform_all-WithinLimit limit calls (perform limit call now pool) l v.1
      (perform-WithinLimit limit call now pool l v.0 h)
