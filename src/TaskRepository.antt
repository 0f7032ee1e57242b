-- ===== src/TaskRepository.antt =====
-- runner_api/src/services/task_repository.py: the task queue that all workers of the runner share.
-- A method is a function of the store, and of the time where it reads the clock; a pipeline is one
-- step of the store.
pub mod Fields
pub mod Queue
pub mod Cancel
pub mod Delete
pub mod Removal
pub mod Update
use gigaevo_platform.Prelude.{
  ℕ, String, Bool, true, false, Option, none, some, List, [], ◌∷◌, ◌++◌, ◌||◌, if◌then◌else◌,
  get_or, ◌>>=◌, keep, take, drop,
}
use gigaevo_platform.Prelude.Eq.{◌==◌, string_eq}
use gigaevo_platform.Prelude.Dict.{Dict, get}
use gigaevo_platform.Formats.{Formats}
use gigaevo_platform.Redis.{Redis, Store, HashKey, ListKey, SetKey}
use gigaevo_platform.Task.{
  TaskStatus, queued, running, completed, failed, terminated, cancelled, Task, TaskCreate,
  TaskUpdate, status_value, new_task, task_to_hash, hash_to_task,
}

-- `status in (COMPLETED, FAILED, TERMINATED, CANCELLED)`, on the enumeration
abbrev pub is_final : TaskStatus → Bool
is_final queued = false
is_final running = false
is_final _ = true

-- The same test on the stored text.
abbrev pub is_final_text : String → Bool
is_final_text s =
    s == status_value completed
    || s == status_value failed
    || s == status_value terminated
    || s == status_value cancelled

-- A field that an update sets, as the entries that it adds to the mapping.
abbrev pub entry {ℓ} : {A : Type ℓ} → String → (A → String) → Option A → Dict String
entry name text none = []
entry name text (some a) = (name, text a) ∷ []

module _ ⦃R : Redis⦄ ⦃F : Formats⦄ where
  open R use {hgetall, hset, delete, lpush, lrem, brpop, smembers, sadd, srem}
  open F use {dumps, Time, isoformat, str_float, Uuid, str_uuid}

  abbrev pub task_key : Uuid → HashKey
  task_key id = HashKey.task (str_uuid id)

  unfoldable pub add_enqueue_ops : Store → Task → Store
  add_enqueue_ops s task = record {
    hashes = hset s.hashes (task_key task.id) (task_to_hash task);
    sets = sadd s.sets SetKey.all_tasks (str_uuid task.id);
    lists =
        lpush (lpush s.lists (ListKey.experiment_tasks task.experiment_id) (str_uuid task.id))
          ListKey.task_queue (str_uuid task.id);
  }

  unfoldable pub create_task : Uuid → Time → Store → TaskCreate → Task × Store
  create_task id now s task = let t = new_task id now task in (t, add_enqueue_ops s t)

  unfoldable pub get_task : Time → Store → Uuid → Option Task
  get_task now s id = hash_to_task now (hgetall s.hashes (task_key id))

  unfoldable pub is_task_cancelled : Store → String → Bool
  is_task_cancelled s id = elim (get (hgetall s.hashes (HashKey.task id)) "status") [
    | none ↦ false
    | some val ↦ val == status_value cancelled
  ]

  -- The entry that a final status adds to an update.
  abbrev pub completion : Time → Option TaskStatus → Dict String
  completion now none = []
  completion now (some st) = if is_final st then ("completed_at", isoformat now) ∷ [] else []

  -- The mapping that `update_task` writes.
  unfoldable pub task_updates : Time → TaskUpdate → Dict String
  task_updates now u =
      entry "status" status_value u.status
      ++ (completion now u.status
          ++ (entry "result" dumps u.result
              ++ (entry "error_message" (λ e. e) u.error_message
                  ++ (entry "progress" str_float u.progress
                      ++ entry "worker_id" (λ w. w) u.worker_id))))

  -- `if updates: await redis.hset(key, mapping=updates)`
  abbrev pub hset_if_any : R.Hashes → HashKey → Dict String → R.Hashes
  hset_if_any h key [] = h
  hset_if_any h key (e ∷ updates) = hset h key (e ∷ updates)

  -- `update_task` on the hash that it finds.
  unfoldable pub update_hash : Time → Store → Uuid → TaskUpdate → Dict String → Option Task × Store
  update_hash now s id u [] = (none, s)
  update_hash now s id u (_ ∷ _) =
      let s' = record s { hashes = hset_if_any s.hashes (task_key id) (task_updates now u) } in
      (hash_to_task now (hgetall s'.hashes (task_key id)), s')

  unfoldable pub update_task : Time → Store → Uuid → TaskUpdate → Option Task × Store
  unfolding update_hash
  update_task now s id u = update_hash now s id u (hgetall s.hashes (task_key id))

  -- `if experiment_id: pipe.lrem(f"experiment:{experiment_id}:tasks", 0, id)`
  abbrev pub lrem_experiment : Option String → String → R.Lists → R.Lists
  lrem_experiment none id l = l
  lrem_experiment (some e) id l = if e == "" then l else lrem l (ListKey.experiment_tasks e) id

  abbrev pub delete_mapping : Time → Dict String
  delete_mapping now =
      ("status", status_value cancelled)
      ∷ ("completed_at", isoformat now)
      ∷ ("delete_after_cancel", "1")
      ∷ []

  -- `delete_task` on the hash that it finds.
  unfoldable pub delete_hash : Time → Store → Uuid → Dict String → Bool × Store
  delete_hash now s id [] = (false, s)
  delete_hash now s id (e ∷ d) =
      let current_status = get_or (get (e ∷ d) "status") (status_value queued) in
      if current_status == status_value running
      then (true, record s { hashes = hset s.hashes (task_key id) (delete_mapping now) })
      else (
        true,
        record {
          hashes = delete s.hashes (task_key id);
          sets = srem s.sets SetKey.all_tasks (str_uuid id);
          lists =
              lrem_experiment (get (e ∷ d) "experiment_id") (str_uuid id)
                (lrem s.lists ListKey.task_queue (str_uuid id));
        },
      )

  unfoldable pub delete_task : Time → Store → Uuid → Bool × Store
  unfolding delete_hash
  delete_task now s id = delete_hash now s id (hgetall s.hashes (task_key id))

  abbrev pub cancel_mapping : Time → Dict String
  cancel_mapping now = ("status", status_value cancelled) ∷ ("completed_at", isoformat now) ∷ []

  -- `cancel_task` on the hash that it finds.
  unfoldable pub cancel_hash : Time → Store → Uuid → Dict String → Bool × Store
  cancel_hash now s id [] = (false, s)
  cancel_hash now s id (e ∷ d) =
      let current_status = get_or (get (e ∷ d) "status") (status_value queued) in
      if is_final_text current_status then (false, s) else (
        true,
        record s {
          hashes = hset s.hashes (task_key id) (cancel_mapping now);
          lists =
              lrem_experiment (get (e ∷ d) "experiment_id") (str_uuid id)
                (lrem s.lists ListKey.task_queue (str_uuid id));
        },
      )

  unfoldable pub cancel_task : Time → Store → Uuid → Bool × Store
  unfolding cancel_hash
  cancel_task now s id = cancel_hash now s id (hgetall s.hashes (task_key id))

  -- What a worker makes of a popped id.
  unfoldable pub claimed : Time → Dict String → Option Task
  claimed now [] = none
  claimed now (e ∷ d) =
      if get_or (get (e ∷ d) "status") "" == status_value cancelled
      then none
      else hash_to_task now (e ∷ d)

  -- The pop waits until it finds an element or times out: `none` is the time-out.
  unfoldable pub claim_next_task : Time → Store → Option Task × Store
  unfolding claimed
  claim_next_task now s = elim (brpop s.lists ListKey.task_queue) [
    | none ↦ (none, s)
    | some (id, rest) ↦
        (claimed now (hgetall s.hashes (HashKey.task id)), record s { lists = rest })
  ]

  unfoldable pub persist_task_state : Store → Task → Store
  persist_task_state s task = record s {
    hashes = hset s.hashes (task_key task.id) (task_to_hash task);
  }
