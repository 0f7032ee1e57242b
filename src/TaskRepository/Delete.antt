-- ===== src/TaskRepository/Delete.antt =====
-- `delete_task`, on a task that is stored.
use gigaevo_platform.Prelude.{String, ◌≡◌, refl, ◌∙◌, ◌≢◌, true, false, none, some, [], ◌∷◌}
use gigaevo_platform.Prelude.Eq.{◌==◌, string_eq, nat_eq, beq_refl, contains}
use gigaevo_platform.Prelude.Dict.{Dict, get}
use gigaevo_platform.Formats.{Formats}
use gigaevo_platform.Redis.{Redis, Store, SetKey, ListKey, hash_key_eq}
use gigaevo_platform.Task.{Task, TaskStatus, running, status_value, task_to_hash, hash_to_task}
use gigaevo_platform.Task.RoundTrip.{Holds}
use gigaevo_platform.TaskRepository.{
  task_key, get_task, is_task_cancelled, delete_task, delete_hash, delete_mapping, lrem_experiment,
}
use gigaevo_platform.TaskRepository.Fields.{Holds-hset_mapping}
use gigaevo_platform.TaskRepository.Cancel.{IsStored, as_cancelled, is_task_cancelled-Holds}

status_not_running :
    (st : TaskStatus) → st ≢ running → (status_value st == status_value running) ≡ false
status_not_running running h = absurd (h refl)
status_not_running _ h = refl

module _ ⦃R : Redis⦄ ⦃F : Formats⦄ where
  open R use {hgetall, hset, delete, srem, lrem, smembers}
  open F use {Time, Uuid, str_uuid}

  delete_hash_running :
      (now : Time) (s : Store) (t : Task) (d : Dict String)
      → Holds t (get d)
      → t.status ≡ running
      → delete_hash now s t.id d
        ≡ (true, record s { hashes = hset s.hashes (task_key t.id) (delete_mapping now) })
  unfolding delete_hash task_to_hash get
  delete_hash_running now s t [] h e = absurd (cc h.0)
  delete_hash_running now s t (x ∷ d) h e = rw (h.1.1.1.0, e)

  pub delete_hash_done :
      (now : Time) (s : Store) (t : Task) (d : Dict String)
      → Holds t (get d)
      → t.status ≢ running
      → delete_hash now s t.id d ≡ (
        true,
        record {
          hashes = delete s.hashes (task_key t.id);
          sets = srem s.sets SetKey.all_tasks (str_uuid t.id);
          lists =
              lrem_experiment
                (some t.experiment_id)
                (str_uuid t.id)
                (lrem s.lists ListKey.task_queue (str_uuid t.id));
        },
      )
  unfolding delete_hash task_to_hash get
  delete_hash_done now s t [] h e = absurd (cc h.0)
  delete_hash_done now s t (x ∷ d) h e = rw (h.1.1.1.0, status_not_running t.status e, h.1.0)

  -- A stored task that does not run is removed: the call returns true, the task is not found again,
  -- and it is in the set of all tasks no more.
  pub delete_task_done :
      (now : Time) (s : Store) (t : Task)
      → IsStored s t
      → t.status ≢ running
      → ((delete_task now s t.id).0 ≡ true)
        × (get_task now (delete_task now s t.id).1 t.id ≡ none)
        × (contains (str_uuid t.id) (smembers (delete_task now s t.id).1.sets SetKey.all_tasks)
            ≡ false)
  unfolding delete_task get_task hash_to_task
  delete_task_done now s t h idle =
      rw (delete_hash_done now s t (hgetall s.hashes (task_key t.id)) h idle) (
        refl,
        rw (R.hgetall-delete s.hashes (task_key t.id) (task_key t.id), beq_refl (str_uuid t.id))
            refl,
        rw
            (
              R.contains-srem s.sets SetKey.all_tasks SetKey.all_tasks (str_uuid t.id)
                  (str_uuid t.id),
              beq_refl (str_uuid t.id),
            )
            refl,
      )

  -- A stored task that runs is kept, marked as cancelled and to be deleted: the call returns true,
  -- a worker's check sees the cancellation, and nothing leaves the lists and sets.
  pub delete_task_running :
      (now : Time) (s : Store) (t : Task)
      → IsStored s t
      → t.status ≡ running
      → ((delete_task now s t.id).0 ≡ true)
        × (is_task_cancelled (delete_task now s t.id).1 (str_uuid t.id) ≡ true)
        × (get (hgetall (delete_task now s t.id).1.hashes (task_key t.id)) "delete_after_cancel"
            ≡ some "1")
        × ((delete_task now s t.id).1.lists ≡ s.lists)
        × ((delete_task now s t.id).1.sets ≡ s.sets)
  unfolding delete_task
  delete_task_running now s t h busy =
      rw (delete_hash_running now s t (hgetall s.hashes (task_key t.id)) h busy) (
        refl,
        is_task_cancelled-Holds _ (as_cancelled now t) (
            Holds-hset_mapping s.hashes (task_key t.id) (delete_mapping now) (as_cancelled now t)
              (unfold task_to_hash get in assumption refl)),
        (R.get-hset s.hashes (task_key t.id) (delete_mapping now) "delete_after_cancel"
            ∙ (unfold get in refl)),
        refl,
        refl,
      )
