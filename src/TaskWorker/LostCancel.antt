-- ===== src/TaskWorker/LostCancel.antt =====
-- What other clients do between a worker's first check for a cancellation and its write of RUNNING.
use gigaevo_platform.Prelude.{String, ◌≡◌, refl, ◌∙◌, true, false, Option, some}
use gigaevo_platform.Prelude.Eq.{◌==◌, string_eq, nat_eq}
use gigaevo_platform.Formats.{Formats}
use gigaevo_platform.Redis.{Redis, Store, HashKey, hash_key_eq}
use gigaevo_platform.Task.{Task, TaskStatus, cancelled, status_value}
use gigaevo_platform.Task.RoundTrip.{HasAwareTimes}
use gigaevo_platform.TaskRepository.{
  is_final, is_task_cancelled, persist_task_state, task_key, cancel_task,
}
use gigaevo_platform.TaskRepository.Fields.{Holds-hset}
use gigaevo_platform.TaskRepository.Cancel.{IsStored, is_task_cancelled-Holds, cancel_task_done}
use gigaevo_platform.TaskWorker.Handlers.{Services, handle}
use gigaevo_platform.TaskWorker.{
  Worker, WorkerStatus, Others, busy, run_task, start, finish, execute_task, update_worker_status,
}

live_not_cancelled :
    (st : TaskStatus) → is_final st ≡ false → (status_value st == status_value cancelled) ≡ false
live_not_cancelled cancelled h = cc
live_not_cancelled _ h = refl

module _ ⦃R : Redis⦄ ⦃F : Formats⦄ where
  open R use {hgetall, hset}
  open F use {Time, str_uuid}

  -- Others who act only between the first check and the write of RUNNING.
  abbrev pub only_before_start : (Store → Store) → Others
  only_before_start act = record {
    before_start = act;
    after_start = λ s. s;
    during = λ s. s;
    before_finish = λ s. s;
    after_finish = λ s. s;
  }

  abbrev pub assigned : Worker → Task → Worker
  assigned w task = record w { current_task = some task; status = busy }

  -- The write of RUNNING, and of the worker's own status, leave no cancellation to be seen.
  started_not_cancelled :
      (now : Time) (w : Worker) (s : Store) (task : Task) (status : WorkerStatus)
      (o : Option String)
      → is_task_cancelled
          (update_worker_status now w status o (persist_task_state s (start now w task))).1
          (str_uuid task.id)
        ≡ false
  unfolding update_worker_status persist_task_state
  started_not_cancelled now w s task status o = is_task_cancelled-Holds _ (start now w task) (
      rw (R.hgetall-hset_ne _ (HashKey.worker w.worker_id) (task_key task.id) _ refl)
        (Holds-hset s.hashes (start now w task)))

  -- If the first check sees no cancellation, then whatever other clients do before the write of
  -- RUNNING, a cancellation included, the task ends as if nobody had done anything: as the handler
  -- leaves it.
  pub before_start_ignored :
      (now : Time) (services : Services) (act : Store → Store) (w : Worker) (s : Store)
      (task : Task)
      → is_task_cancelled s (str_uuid task.id) ≡ false
      → (execute_task now services (only_before_start act) w s task).0
        ≡ finish now false (handle services (start now (assigned w task) task))
  unfolding execute_task run_task
  before_start_ignored now services act w s task clear =
      let missed =
        started_not_cancelled now (assigned w task) (act s) task busy (some (str_uuid task.id)) in
      rw clear (rw missed (rw missed refl))

  -- A cancellation, at a time that carries a zone, of a stored task whose times carry a zone and
  -- whose status is not final, that falls between the first check and the write of RUNNING is
  -- reported as done, and lost: the task ends as the handler leaves it.
  pub lost_cancel :
      (now : Time) (services : Services) (w : Worker) (s : Store) (task : Task)
      → IsStored s task
      → HasAwareTimes task
      → F.is_naive now ≡ false
      → is_final task.status ≡ false
      → ((cancel_task now s task.id).0 ≡ true)
        × ((execute_task now services
              (only_before_start (λ x. (cancel_task now x task.id).1))
              w
              s
              task).0
            ≡ finish now false (handle services (start now (assigned w task) task)))
  lost_cancel now services w s task h aware utc live = (
    (cancel_task_done now s task h aware utc live).0,
    before_start_ignored now services _ w s task
        (is_task_cancelled-Holds s task h ∙ live_not_cancelled task.status live),
  )
