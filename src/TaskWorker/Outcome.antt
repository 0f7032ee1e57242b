-- ===== src/TaskWorker/Outcome.antt =====
-- What a task is when its worker has done with it.
use gigaevo_platform.Prelude.{ℕ, ◌≤◌, ◌≡◌, refl, ◌↔◌, Bool, true, false, none, some, arith, is_some}
use gigaevo_platform.Prelude.Eq.{string_eq, nat_eq}
use gigaevo_platform.Formats.{Formats}
use gigaevo_platform.Redis.{Redis, Store}
use gigaevo_platform.Task.{TaskType, clone_repo, Task, completed}
use gigaevo_platform.TaskRepository.{is_final}
use gigaevo_platform.TaskWorker.Handlers.{
  Services, handle, dispatch, handle_success, handle_run_experiment, returns, RunOutcome,
}
use gigaevo_platform.TaskWorker.{
  Worker, Others, idle, busy, run_task, start, finish, execute_task, clean_up, release,
}

module _ ⦃F : Formats⦄ where
  handle_success-is_final :
      (services : Services) (run : RunOutcome) (task : Task)
      → is_final (handle_success services run task).status ≡ true
  unfolding handle_success
  handle_success-is_final services run task = ground arith

  dispatch-is_final :
      (type : TaskType) (services : Services) (task : Task)
      → is_final (dispatch type services task).status ≡ true
  unfolding dispatch
  dispatch-is_final clone_repo services task = refl
  dispatch-is_final type services task = ground arith

  -- A run asked for a number of iterations that ends with exit code 0, in time and with no limit
  -- reached is completed exactly when the count that was found is at least that number.
  pub handle_run_experiment-iterations :
      (services : Services) (run : RunOutcome) (task : Task) (expected : ℕ)
      → services.run ≡ returns (some run)
      → run.timed_out ≡ false
      → run.success ≡ true
      → run.generation_limit_reached ≡ false
      → services.max_iterations ≡ some expected
      → ((handle_run_experiment services task).status ≡ completed)
        ↔ ((actual : ℕ) × (services.iterations ≡ some actual) × (expected ≤ actual))
  unfolding handle_run_experiment
  handle_run_experiment-iterations services run task expected r t s g m = ground arith

  -- Whatever the type of a task and the answers of the services, the handler leaves a final status.
  pub handle-is_final :
      (services : Services) (task : Task) → is_final (handle services task).status ≡ true
  unfolding handle
  handle-is_final services task = dispatch-is_final task.task_type services task

module _ ⦃R : Redis⦄ ⦃F : Formats⦄ where
  open F use {Time, str_uuid}

  finish-is_final :
      (now : Time) (was : Bool) (task : Task)
      → is_final task.status ≡ true
      → is_final (finish now was task).status ≡ true
  unfolding finish
  finish-is_final now was task h = ground arith

  run_task-is_final :
      (now : Time) (services : Services) (others : Others) (w : Worker) (s : Store) (task : Task)
      → is_final (run_task now services others w s task).0.status ≡ true
  unfolding run_task
  run_task-is_final now services others w s task =
      ground (arith, handle-is_final services (start now w task))

  -- Whatever the services answer and other clients do, an executed task has a final status and a
  -- time of completion, and its worker is idle with no current task.
  pub execute_task_ends :
      (now : Time) (services : Services) (others : Others) (w : Worker) (s : Store) (task : Task)
      → let (done, w', s') = execute_task now services others w s task in
        (is_final done.status ≡ true)
        × (is_some done.completed_at ≡ true)
        × (w'.status ≡ idle)
        × (w'.current_task ≡ none)
  unfolding execute_task finish clean_up release
  execute_task_ends now services others w s task = ground (
    arith,
    run_task-is_final now services others (record w { current_task = some task; status = busy }) s
        task,
  )
