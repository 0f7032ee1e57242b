-- ===== src/Samples/Tasks.antt =====
-- The task queue on a server in memory.
use gigaevo_platform.Prelude.{◌≡◌, refl, ◌≢◌, true, false, none, some, [], ◌∷◌}
use gigaevo_platform.Prelude.Eq.{string_eq, nat_eq, contains}
use gigaevo_platform.Prelude.Dict.{get}
use gigaevo_platform.Formats.Plain.{Stamp, plain}
use gigaevo_platform.Redis.{Store, hash_key_eq, list_key_eq, set_key_eq, SetKey}
use gigaevo_platform.Redis.Memory.{memory}
use gigaevo_platform.Task.{
  Task, TaskCreate, TaskUpdate, running, completed, cancelled, generate_code, new_task,
}
use gigaevo_platform.Task.RoundTrip.{HasAwareTimes, stored}
use gigaevo_platform.TaskRepository.{
  task_key, is_final, add_enqueue_ops, get_task, persist_task_state, claim_next_task, cancel_task,
  delete_task, update_task, is_task_cancelled,
}
use gigaevo_platform.TaskRepository.Fields.{get_task-persist, Holds-hset}
use gigaevo_platform.TaskRepository.Queue.{
  Represents, ident, claim-Represents, enqueue-Represents, claim_none,
}
use gigaevo_platform.TaskRepository.Cancel.{
  IsStored, as_cancelled, cancel_task_done, cancel_task_refused,
}
use gigaevo_platform.TaskRepository.Delete.{delete_task_done, delete_task_running}
use gigaevo_platform.TaskRepository.Removal.{others, cancel-Represents, delete-Represents}
use gigaevo_platform.TaskRepository.Update.{as_updated, update_task_done}

abbrev pub empty_store : Store
empty_store = record { hashes = λ k. []; lists = λ k. []; sets = λ k. [] }

abbrev pub noon : Stamp
noon = record { text = "2025-01-01T12:00"; naive = false }

abbrev pub request : TaskCreate
request = record { experiment_id = "e1"; task_type = generate_code; parameters = "}" }

abbrev pub sample : Task
unfolding new_task
sample = new_task "t1" noon request

abbrev pub waiting : Store
unfolding add_enqueue_ops
waiting = add_enqueue_ops empty_store sample

pub sample_aware : HasAwareTimes sample
unfolding new_task
sample_aware = record { created = refl; started = tt; completed = tt }

pub sample_live : sample.status ≢ cancelled
unfolding new_task
sample_live e = cc

get_task-persist_example :
    get_task noon (persist_task_state empty_store sample) sample.id ≡ some (stored sample)
get_task-persist_example = get_task-persist noon empty_store sample sample_aware

empty-Represents : Represents empty_store []
empty-Represents = record { order = refl; waiting = tt }

enqueue-Represents_example : Represents (add_enqueue_ops empty_store sample) (sample ∷ [])
enqueue-Represents_example =
    enqueue-Represents empty_store sample [] empty-Represents sample_aware sample_live tt

waiting-Represents : Represents waiting (sample ∷ [])
unfolding add_enqueue_ops
waiting-Represents =
    enqueue-Represents empty_store sample [] empty-Represents sample_aware sample_live tt

claim-Represents_example :
    (s' : Store) × (claim_next_task noon waiting ≡ (some (stored sample), s')) × Represents s' []
claim-Represents_example = claim-Represents noon waiting sample [] waiting-Represents

pub waiting-IsStored : IsStored waiting sample
unfolding add_enqueue_ops
waiting-IsStored = Holds-hset empty_store.hashes sample

pub sample-not_final : is_final sample.status ≡ false
unfolding new_task
sample-not_final = refl

cancel_task_done_example :
    ((cancel_task noon waiting sample.id).0 ≡ true)
    × (is_task_cancelled (cancel_task noon waiting sample.id).1 sample.id ≡ true)
    × (get_task noon (cancel_task noon waiting sample.id).1 sample.id
        ≡ some (stored (as_cancelled noon sample)))
cancel_task_done_example =
    cancel_task_done noon waiting sample waiting-IsStored sample_aware refl sample-not_final

cancel-Represents_example :
    Represents (cancel_task noon waiting sample.id).1 (others (ident sample) (sample ∷ []))
cancel-Represents_example =
    cancel-Represents noon waiting sample (sample ∷ []) waiting-Represents waiting-IsStored
      sample-not_final

sample-idle : sample.status ≢ running
unfolding new_task
sample-idle e = cc

delete_task_done_example :
    ((delete_task noon waiting sample.id).0 ≡ true)
    × (get_task noon (delete_task noon waiting sample.id).1 sample.id ≡ none)
    × (contains sample.id
          (memory.smembers (delete_task noon waiting sample.id).1.sets SetKey.all_tasks)
        ≡ false)
delete_task_done_example = delete_task_done noon waiting sample waiting-IsStored sample-idle

delete-Represents_example :
    Represents (delete_task noon waiting sample.id).1 (others (ident sample) (sample ∷ []))
delete-Represents_example =
    delete-Represents noon waiting sample (sample ∷ []) waiting-Represents waiting-IsStored
      sample-idle

abbrev busy_sample : Task
busy_sample = record sample { status = running; started_at = some noon; worker_id = some "w1" }

abbrev at_work : Store
unfolding persist_task_state
at_work = persist_task_state waiting busy_sample

at_work-IsStored : IsStored at_work busy_sample
unfolding persist_task_state
at_work-IsStored = Holds-hset waiting.hashes busy_sample

delete_task_running_example :
    ((delete_task noon at_work busy_sample.id).0 ≡ true)
    × (is_task_cancelled (delete_task noon at_work busy_sample.id).1 busy_sample.id ≡ true)
    × (get
          (memory.hgetall
            (delete_task noon at_work busy_sample.id).1.hashes
            (task_key busy_sample.id))
          "delete_after_cancel"
        ≡ some "1")
    × ((delete_task noon at_work busy_sample.id).1.lists ≡ at_work.lists)
    × ((delete_task noon at_work busy_sample.id).1.sets ≡ at_work.sets)
delete_task_running_example = delete_task_running noon at_work busy_sample at_work-IsStored refl

abbrev finished : TaskUpdate
finished = record {
  status = some completed;
  result = some "}";
  error_message = none;
  progress = none;
  worker_id = some "w1";
}

update_task_done_example :
    ((update_task noon waiting sample.id finished).0
      ≡ some (stored (as_updated noon finished sample)))
    × IsStored (update_task noon waiting sample.id finished).1 (as_updated noon finished sample)
update_task_done_example =
    update_task_done noon waiting finished sample waiting-IsStored sample_aware refl

claim_none_example : claim_next_task noon empty_store ≡ (none, empty_store)
claim_none_example = claim_none noon empty_store empty-Represents

abbrev done_sample : Task
done_sample = record sample { status = completed }

abbrev at_rest : Store
unfolding persist_task_state
at_rest = persist_task_state waiting done_sample

at_rest-IsStored : IsStored at_rest done_sample
unfolding persist_task_state
at_rest-IsStored = Holds-hset waiting.hashes done_sample

cancel_task_refused_example : cancel_task noon at_rest done_sample.id ≡ (false, at_rest)
cancel_task_refused_example = cancel_task_refused noon at_rest done_sample at_rest-IsStored refl
