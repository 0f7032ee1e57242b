-- ===== src/Dispatch.antt =====
-- master_api/src/services/experiment_service.py: the start of an experiment on a runner, and one round
-- of the scheduler that starts queued experiments. What the runner answers to the requests is an
-- argument, by the number of the attempt. Of a result, the model keeps `ok` and the status code.
use gigaevo_platform.Prelude.{
  ℕ, zero, suc, ◌+◌, String, Bool, true, false, not, ◌&&◌, ◌||◌, Option, none, some, List, [],
  if◌then◌else◌,
}
use gigaevo_platform.Prelude.Eq.{◌==◌, string_eq, nat_eq}
pub mod Rows
pub mod Settled
use gigaevo_platform.Experiments.{
  Experiment, ExperimentStatus, pending, preparing, queued, initializing, running, failed,
  preparation_failed, cancelled, get_experiment, update_where, claim_next_queued_for_dispatching,
  recover_stale_dispatching, is_queued, is_dispatching,
}
use gigaevo_platform.Runners.{Runner, Pool, has_ready_runner_capacity}
use gigaevo_platform.Runners.Allocate.{
  allocate_runner_for_experiment, allocate_specific_runner_for_experiment,
}
use gigaevo_platform.Runners.Release.{nonempty_id, release_runner_by_id_if_experiment}

-- What a POST meets: status 200, another status, no connection, or another exception.
pub data PostReply : Type 0 where
  accepted rejected unreachable raised : PostReply

-- The attempts that are left, and the number of the next: only a lost connection is tried again.
unfoldable pub post_with_retry : ℕ → ℕ → (ℕ → PostReply) → Bool
post_with_retry zero attempt reply = false
post_with_retry (suc n) attempt reply =
    let rest = post_with_retry n (attempt + 1) reply in
    elim (reply attempt) [
      | accepted ↦ true
      | rejected ↦ false
      | raised ↦ false
      | unreachable ↦ rest
    ]

pub record StartResult : Type 0 where
  pub ok : Bool
  pub http_status : ℕ

abbrev pub result : Bool → ℕ → StartResult
result ok http_status = record { ok = ok; http_status = http_status }

-- The statuses in which an experiment is not started.
abbrev pub is_unstartable : ExperimentStatus → Bool
is_unstartable s = elim s [
  | pending ↦ true
  | initializing ↦ true
  | preparing ↦ true
  | running ↦ true
  | cancelled ↦ true
  | _ ↦ false
]

abbrev pub is_preparation_failed : ExperimentStatus → Bool
is_preparation_failed s = elim s [ preparation_failed ↦ true | _ ↦ false ]

abbrev pub set_status_row : ExperimentStatus → ℕ → Experiment → Experiment
set_status_row s now e = record e { status = s; status_message = none; updated_at = now }

abbrev pub set_status_of : String → ExperimentStatus → ℕ → Pool → Pool
set_status_of e s now pool = record pool {
  experiments = update_where e (set_status_row s now) pool.experiments;
}

abbrev pub initializing_row : ℕ → Experiment → Experiment
initializing_row now e = record e {
  status = initializing;
  status_message = none;
  started_at = some now;
  updated_at = now;
}

abbrev waiting_row : ℕ → Experiment → Experiment
waiting_row now e = record e {
  status = queued;
  status_message = some "Waiting for runner capacity";
  updated_at = now;
}

-- An attempt to start that is over: the experiment has failed, and the runner is given back.
abbrev pub fail_start : ℕ → String → String → ℕ → Pool → StartResult × Pool
fail_start limit runner_id e now pool = (
  result false 502,
  (release_runner_by_id_if_experiment limit runner_id e now (set_status_of e failed now pool)).1,
)

-- The steps behind the allocation.
abbrev pub run_on_runner :
    ℕ → String → ℕ → (ℕ → PostReply) → (ℕ → PostReply) → Option Runner × Pool → StartResult × Pool
run_on_runner limit e now init start (none, pool) = (
  result true 202,
  record pool { experiments = update_where e (waiting_row now) pool.experiments },
)
run_on_runner limit e now init start (some r, pool) =
    let begun : Pool = record pool {
      experiments = update_where e (initializing_row now) pool.experiments;
    } in
    let prepared = set_status_of e preparing now begun in
    if post_with_retry 3 1 init
    then if post_with_retry 3 1 start
      then (result true 200, set_status_of e running now prepared)
      else fail_start limit r.id e now prepared
    else fail_start limit r.id e now begun

abbrev pub allocated : ℕ → List String → String → Option String → ℕ → Pool → Option Runner × Pool
allocated limit locked e none now pool = allocate_runner_for_experiment limit locked e now pool
allocated limit locked e (some id) now pool =
    allocate_specific_runner_for_experiment limit id e now pool

-- The tests on the row, in their order.
abbrev pub refused : Bool → Experiment → Option StartResult
refused from_scheduler x =
    if not x.files_ready || is_preparation_failed x.status
    then some (result false 409)
    else if not from_scheduler && (is_queued x.status || is_dispatching x.status)
    then some (result true 202)
    else if is_unstartable x.status
    then some (result false 409)
    else none

abbrev pub start_checked :
    ℕ
    → List String
    → String
    → Option String
    → ℕ
    → (ℕ → PostReply)
    → (ℕ → PostReply)
    → Option StartResult
    → Pool
    → StartResult × Pool
start_checked limit locked e instance_id now init start (some answer) pool = (answer, pool)
start_checked limit locked e instance_id now init start none pool =
    run_on_runner limit e now init start
      (allocated limit locked e (nonempty_id instance_id) now pool)

abbrev pub start_found :
    ℕ
    → List String
    → String
    → Option String
    → Bool
    → ℕ
    → (ℕ → PostReply)
    → (ℕ → PostReply)
    → Option Experiment
    → Pool
    → StartResult × Pool
start_found limit locked e instance_id from_scheduler now init start none pool =
    (result false 404, pool)
start_found limit locked e instance_id from_scheduler now init start (some x) pool =
    start_checked limit locked e instance_id now init start (refused from_scheduler x) pool

unfoldable pub start_experiment_forward :
    ℕ
    → List String
    → String
    → Option String
    → Bool
    → ℕ
    → (ℕ → PostReply)
    → (ℕ → PostReply)
    → Pool
    → StartResult × Pool
unfolding get_experiment update_where post_with_retry allocate_runner_for_experiment
    allocate_specific_runner_for_experiment release_runner_by_id_if_experiment
start_experiment_forward limit locked e instance_id from_scheduler now init start pool =
    start_found limit locked e instance_id from_scheduler now init start
      (get_experiment pool.experiments e) pool

-- What the scheduler does with the experiment that it has claimed.
abbrev pub requeue_if_waiting : String → ℕ → StartResult × Pool → Pool
requeue_if_waiting e now (res, pool) =
    if res.ok && res.http_status == 202
    then record pool { experiments = update_where e (waiting_row now) pool.experiments }
    else pool

abbrev pub dispatch_claimed :
    ℕ
    → List String
    → ℕ
    → (ℕ → PostReply)
    → (ℕ → PostReply)
    → Option Experiment × List Experiment
    → Pool
    → Pool
dispatch_claimed limit locked now init start (none, experiments) pool = pool
dispatch_claimed limit locked now init start (some x, experiments) pool =
    let claimed : Pool = record pool { experiments = experiments } in
    if x.files_ready
    then requeue_if_waiting x.id now
        (start_experiment_forward limit locked x.id none true now init start claimed)
    else set_status_of x.id preparation_failed now claimed

-- One round of `_queue_scheduler_loop`; `busy_rows` are the experiments that others have locked.
unfoldable pub schedule_round :
    ℕ → ℕ → List String → List String → ℕ → (ℕ → PostReply) → (ℕ → PostReply) → Pool → Pool
unfolding recover_stale_dispatching has_ready_runner_capacity claim_next_queued_for_dispatching
    start_experiment_forward update_where
schedule_round limit ttl locked busy_rows now init start pool =
    let recovered : Pool = record pool {
      experiments = (recover_stale_dispatching ttl now pool.experiments).1;
    } in
    if has_ready_runner_capacity limit recovered
    then dispatch_claimed limit locked now init start
        (claim_next_queued_for_dispatching busy_rows now recovered.experiments) recovered
    else recovered
