-- ===== src/TaskWorker.antt =====
-- runner_api/src/workers/task_worker.py: how a worker runs one claimed task. What the other services
-- answer, and what other clients do to the store while the worker waits, are arguments.
pub mod Handlers
pub mod Outcome
pub mod Final
pub mod LostCancel
pub mod Polling
use gigaevo_platform.Prelude.{
  ℕ, zero, suc, ◌+◌, ◌-◌, ◌≤◌, ◌<◌, String, append_text, ◌≡◌, refl, sym, ap, ◌∙◌, ◌≢◌, ◌↔◌, ◌⊎◌,
  inl, inr, Bool, true, false, not, ◌&&◌, ◌||◌, Option, none, some, List, [], ◌∷◌, ◌++◌, map, arith,
  eq_iff, ltb, leb, if◌then◌else◌, Bool-cases, Option-cases, or_else, is_some, ◌>>=◌, get_or,
  length, take, drop, keep, All, All-mono, All-zip, All-append, All-keep,
}
use gigaevo_platform.Prelude.Eq.{Eq, ◌==◌, string_eq, nat_eq, beq_refl, contains}
use gigaevo_platform.Prelude.Dict.{Dict, get, put, get-put}
use gigaevo_platform.Formats.{Formats}
use gigaevo_platform.Redis.{Redis, Store, HashKey, SetKey}
use gigaevo_platform.Task.{
  TaskStatus, queued, running, completed, failed, terminated, cancelled, TaskType, clone_repo,
  generate_code, run_experiment, collect_results, run_agent_skill, Task, status_value, or_none,
}
use gigaevo_platform.TaskRepository.{
  task_key, is_task_cancelled, persist_task_state, lrem_experiment,
}
use gigaevo_platform.TaskWorker.Handlers.{Services, handle}

pub data WorkerStatus : Type 0 where
  idle busy error offline : WorkerStatus

abbrev pub worker_status_value : WorkerStatus → String
worker_status_value idle = "idle"
worker_status_value busy = "busy"
worker_status_value error = "error"
worker_status_value offline = "offline"

abbrev is_status_cancelled : TaskStatus → Bool
is_status_cancelled cancelled = true
is_status_cancelled _ = false

abbrev is_status_completed : TaskStatus → Bool
is_status_completed completed = true
is_status_completed _ = false

abbrev is_run_experiment : TaskType → Bool
is_run_experiment run_experiment = true
is_run_experiment _ = false

module _ ⦃R : Redis⦄ ⦃F : Formats⦄ where
  open R use {hgetall, hset, hincrby, delete, lrem, sadd, srem}
  open F use {Time, isoformat, hundred, str_uuid}

  pub record Worker : Type 0 where
    pub worker_id : String
    pub name : String
    pub status : WorkerStatus
    pub current_task : Option Task

  -- What other clients of the store do at the points where the worker waits: between the first check
  -- and the write of RUNNING, before the second check, while the handler runs, between the last check
  -- and the last write, and after it.
  pub record Others : Type 0 where
    pub before_start : Store → Store
    pub after_start : Store → Store
    pub during : Store → Store
    pub before_finish : Store → Store
    pub after_finish : Store → Store

  unfoldable pub update_worker_status :
      Time → Worker → WorkerStatus → Option String → Store → Worker × Store
  update_worker_status now w status task_id s = (
    record w { status = status },
    record s {
      hashes = hset s.hashes (HashKey.worker w.worker_id) (
          ("id", w.worker_id)
          ∷ ("name", w.name)
          ∷ ("status", worker_status_value status)
          ∷ ("current_task_id", get_or task_id "")
          ∷ ("last_heartbeat", isoformat now)
          ∷ []);
      sets = sadd s.sets SetKey.workers w.worker_id;
    },
  )

  abbrev pub start : Time → Worker → Task → Task
  start now w task = record task {
    status = running;
    started_at = some now;
    worker_id = some w.worker_id;
  }

  -- `task.error_message or text`
  abbrev pub error_or : Task → String → Option String
  error_or task text = some (get_or (or_none task.error_message) text)

  abbrev pub abandon : Task → Task
  abandon task = record task {
    status = cancelled;
    error_message = error_or task "Cancelled before execution";
  }

  -- The `try` block: the task as it leaves it, the worker and the store.
  unfoldable pub run_task : Time → Services → Others → Worker → Store → Task → Task × Worker × Store
  unfolding update_worker_status
  run_task now services others w s task =
      let id = str_uuid task.id in
      let started = start now w task in
      let (w', marked) =
        update_worker_status now w busy (some id)
          (persist_task_state (others.before_start s) started) in
      let s' = others.after_start marked in
      if is_task_cancelled s id
      then (abandon task, w, s)
      else if is_task_cancelled s' id
      then (abandon started, w', s')
      else (handle services started, w', others.during s')

  -- What the `finally` block makes of the task before the last write.
  unfoldable pub finish : Time → Bool → Task → Task
  finish now was_cancelled task =
      let t1 =
        if was_cancelled && not (is_status_cancelled task.status)
        then record task { status = cancelled; error_message = error_or task "Cancelled" }
        else task in
      let t2 =
        if not was_cancelled && is_status_completed t1.status
        then record t1 { progress = hundred }
        else t1 in
      record t2 { completed_at = some (get_or t2.completed_at now) }

  -- `_maybe_delete_after_cancel` on the hash that it finds.
  unfoldable pub delete_if_requested : Store → String → String → Dict String → Store
  delete_if_requested s id experiment_id data_ =
      if get_or (get data_ "delete_after_cancel") "" == "1"
        && get_or (get data_ "status") "" == status_value cancelled
      then record {
        hashes = delete s.hashes (HashKey.task id);
        sets = srem s.sets SetKey.all_tasks id;
        lists = lrem_experiment (some experiment_id) id s.lists;
      }
      else s

  unfoldable pub maybe_delete_after_cancel : Store → String → String → Store
  unfolding delete_if_requested
  maybe_delete_after_cancel s id experiment_id =
      delete_if_requested s id experiment_id (hgetall s.hashes (HashKey.task id))

  -- The entries that the outcome of a run gives the experiment's status hash.
  unfoldable pub experiment_mapping : Time → TaskStatus → Dict String
  experiment_mapping now completed =
      ("status", "completed") ∷ ("completed_at", isoformat now) ∷ ("status_message", "") ∷ []
  experiment_mapping now failed =
      ("status", "failed") ∷ ("completed_at", isoformat now) ∷ ("status_message", "") ∷ []
  experiment_mapping now terminated =
      ("status", "terminated")
      ∷ ("completed_at", isoformat now)
      ∷ ("status_message", "Time limit reached")
      ∷ []
  experiment_mapping now cancelled =
      ("status", "cancelled") ∷ ("stopped_at", isoformat now) ∷ ("status_message", "") ∷ []
  experiment_mapping now _ = []

  abbrev pub hset_nonempty : R.Hashes → HashKey → Dict String → R.Hashes
  hset_nonempty h key [] = h
  hset_nonempty h key (e ∷ m) = hset h key (e ∷ m)

  unfoldable pub update_experiment_status_after_run : Time → Store → String → TaskStatus → Store
  unfolding experiment_mapping
  update_experiment_status_after_run now s experiment_id status = record s {
    hashes =
        hset_nonempty s.hashes (HashKey.experiment_status experiment_id)
          (experiment_mapping now status);
  }

  -- The counter of tasks goes up, and the worker is idle again.
  unfoldable pub release : Time → Worker → Store → Worker × Store
  unfolding update_worker_status
  release now w s =
      update_worker_status now (record w { current_task = none; status = idle }) idle none
        (record s {
          hashes = hincrby s.hashes (HashKey.worker w.worker_id) "total_tasks_completed";
        })

  -- Only a run of an experiment has a say in the experiment's status.
  unfoldable pub sync_experiment : Time → Task → Store → Store
  sync_experiment now task s =
      if is_run_experiment task.task_type && not (task.experiment_id == "")
      then update_experiment_status_after_run now s task.experiment_id task.status
      else s

  -- The `finally` block after the last write of the task.
  unfoldable pub clean_up : Time → Worker → Store → Task → Worker × Store
  clean_up now w s task =
      let (w', s') = release now w s in
      (
        w',
        sync_experiment now task
            (maybe_delete_after_cancel s' (str_uuid task.id) task.experiment_id),
      )

  -- `_execute_task`, with the task as it is left.
  unfoldable pub execute_task :
      Time → Services → Others → Worker → Store → Task → Task × Worker × Store
  execute_task now services others w s task =
      let (ran, w', s') =
        run_task now services others (record w { current_task = some task; status = busy }) s
          task in
      let done = finish now (is_task_cancelled s' (str_uuid task.id)) ran in
      let saved = others.after_finish (persist_task_state (others.before_finish s') done) in
      let (w'', s'') = clean_up now w' saved done in (done, w'', s'')
