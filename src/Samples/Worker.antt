-- ===== src/Samples/Worker.antt =====
-- The worker on a server in memory.
use gigaevo_platform.Prelude.{
  ◌≡◌, refl, true, false, none, some, [], is_some, All, length, ◌≤◌, ◌⊎◌,
}
use gigaevo_platform.Prelude.Eq.{string_eq, nat_eq}
use gigaevo_platform.Prelude.Dict.{get}
use gigaevo_platform.Formats.Plain.{plain}
use gigaevo_platform.TaskWorker.Polling.{
  Turn, run_worker, IsEnded, IsFree, IsStopped, run_worker-ends,
}
use gigaevo_platform.Prelude.{List, ◌∷◌}
use gigaevo_platform.Redis.{hash_key_eq, list_key_eq, set_key_eq}
use gigaevo_platform.Redis.Memory.{memory}
use gigaevo_platform.Task.{new_task, task_to_hash, new_task, task_to_hash}
use gigaevo_platform.TaskRepository.{
  is_final, add_enqueue_ops, persist_task_state, cancel_task, is_task_cancelled,
}
use gigaevo_platform.TaskRepository.Cancel.{is_task_cancelled-Holds}
use gigaevo_platform.TaskWorker.Handlers.{Services, RunOutcome, returns, refused, handle}
use gigaevo_platform.TaskWorker.{
  update_worker_status, Worker, Others, idle, start, finish, execute_task, run_task, busy,
}
use gigaevo_platform.TaskWorker.Outcome.{execute_task_ends}
use gigaevo_platform.TaskWorker.Final.{Kept, execute_task_saves}
use gigaevo_platform.TaskWorker.LostCancel.{only_before_start, assigned, lost_cancel}
use gigaevo_platform.Samples.Tasks.{
  noon, sample, waiting, sample_aware, waiting-IsStored, sample-not_final,
}

abbrev services : Services
services = record {
  generated_code = returns (some "print(1)");
  run = returns none;
  generations = returns 0;
  iterations = some 3;
  max_iterations = some 3;
  skill = refused "no sandbox";
}

abbrev worker : Worker
worker = record { worker_id = "w1"; name = "first"; status = idle; current_task = none }

abbrev quiet : Others
quiet = only_before_start (λ s. s)

execute_task_ends_example :
    let (done, w', s') = execute_task noon services quiet worker waiting sample in
    (is_final done.status ≡ true)
    × (is_some done.completed_at ≡ true)
    × (w'.status ≡ idle)
    × (w'.current_task ≡ none)
execute_task_ends_example = execute_task_ends noon services quiet worker waiting sample

execute_task_saves_example :
    let (done, w', s') = execute_task noon services quiet worker waiting sample in
    let (ran, w'', s'') =
      run_task noon services quiet
        (record worker { current_task = some sample; status = busy })
        waiting
        sample in
    Kept s'' done s'
execute_task_saves_example =
    execute_task_saves noon services quiet worker waiting sample (λ x. refl)

abbrev run : RunOutcome
run = record {
  timed_out = false;
  success = true;
  generation_limit_reached = false;
  error = none;
  payload = "}";
}

abbrev ran : Services
ran = record services { run = returns (some run) }

sample_clear : is_task_cancelled waiting sample.id ≡ false
unfolding new_task
sample_clear = is_task_cancelled-Holds waiting sample waiting-IsStored

lost_cancel_example :
    ((cancel_task noon waiting sample.id).0 ≡ true)
    × ((execute_task noon services
          (only_before_start (λ x. (cancel_task noon x sample.id).1))
          worker
          waiting
          sample).0
        ≡ finish noon false (handle services (start noon (assigned worker sample) sample)))
lost_cancel_example =
    lost_cancel noon services worker waiting sample waiting-IsStored sample_aware refl
      sample-not_final

-- Another client cancels while the handler runs.
abbrev cancelling : Others
cancelling = record quiet { during = λ x. (cancel_task noon x sample.id).1 }

seen :
    is_task_cancelled
      (run_task noon services cancelling (assigned worker sample) waiting sample).2
      sample.id
    ≡ true
unfolding run_task is_task_cancelled persist_task_state update_worker_status new_task
    add_enqueue_ops get task_to_hash cancel_task
seen = refl

abbrev turns : List Turn
turns = (record { now = noon; services = services; others = quiet }) ∷ []

run_worker-ends_example :
    let (done, w', s') = run_worker noon turns worker waiting in
    All IsEnded done × (length done ≤ 1) × IsFree w' × ((¬ IsStopped worker waiting) ⊎ (done ≡ []))
run_worker-ends_example = run_worker-ends noon turns worker waiting refl
