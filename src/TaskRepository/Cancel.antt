-- ===== src/TaskRepository/Cancel.antt =====
-- `cancel_task`, `delete_task` and `is_task_cancelled`, on a task that is stored.
use gigaevo_platform.Prelude.{String, ◌≡◌, true, false, some, [], ◌∷◌, refl}
use gigaevo_platform.Prelude.Dict.{get, Dict}
use gigaevo_platform.Formats.{Formats}
use gigaevo_platform.Redis.{Redis, Store, ListKey}
use gigaevo_platform.Task.{Task, TaskStatus, queued, cancelled, status_value, task_to_hash}
use gigaevo_platform.Task.RoundTrip.{Holds, HasAwareTimes, stored}
use gigaevo_platform.TaskRepository.{
  task_key, is_final, is_final_text, get_task, is_task_cancelled, cancel_task, cancel_hash,
  cancel_mapping, lrem_experiment,
}
use gigaevo_platform.TaskRepository.Fields.{hash_to_task-Holds, Holds-hset_mapping}
use gigaevo_platform.Prelude.Eq.{◌==◌, string_eq}

is_final_text-status_value : (st : TaskStatus) → is_final_text (status_value st) ≡ is_final st
is_final_text-status_value queued = refl
is_final_text-status_value _ = refl

module _ ⦃R : Redis⦄ ⦃F : Formats⦄ where
  open R use {hgetall, hset}
  open F use {Time, Uuid, str_uuid}

  -- The task that the store holds under its id.
  abbrev pub IsStored : Store → Task → Type 0
  IsStored s t = Holds t (get (hgetall s.hashes (task_key t.id)))

  abbrev pub as_cancelled : Time → Task → Task
  as_cancelled now t = record t { status = cancelled; completed_at = some now }

  cancel_hash_refused :
      (now : Time) (s : Store) (t : Task) (d : Dict String)
      → Holds t (get d)
      → is_final t.status ≡ true
      → cancel_hash now s t.id d ≡ (false, s)
  unfolding cancel_hash task_to_hash get
  cancel_hash_refused now s t [] h final = absurd (cc h.0)
  cancel_hash_refused now s t (e ∷ d) h final =
      rw (h.1.1.1.0, is_final_text-status_value t.status, final)

  pub cancel_hash_done :
      (now : Time) (s : Store) (t : Task) (d : Dict String)
      → Holds t (get d)
      → is_final t.status ≡ false
      → cancel_hash now s t.id d ≡ (
        true,
        record s {
          hashes = hset s.hashes (task_key t.id) (cancel_mapping now);
          lists =
              lrem_experiment
                (some t.experiment_id)
                (str_uuid t.id)
                (R.lrem s.lists ListKey.task_queue (str_uuid t.id));
        },
      )
  unfolding cancel_hash task_to_hash get
  cancel_hash_done now s t [] h live = absurd (cc h.0)
  cancel_hash_done now s t (e ∷ d) h live =
      rw (h.1.1.1.0, is_final_text-status_value t.status, live, h.1.0)

  pub is_task_cancelled-Holds :
      (s : Store) (t : Task)
      → IsStored s t
      → is_task_cancelled s (str_uuid t.id) ≡ (status_value t.status == status_value cancelled)
  unfolding is_task_cancelled task_to_hash
  is_task_cancelled-Holds s t h = rw (h.1.1.1.0, is_task_cancelled)

  as_cancelled-Holds :
      (now : Time) (h : R.Hashes) (t : Task)
      → Holds t (get (hgetall h (task_key t.id)))
      → Holds
          (as_cancelled now t)
          (get (hgetall (hset h (task_key t.id) (cancel_mapping now)) (task_key t.id)))
  as_cancelled-Holds now h t p =
      Holds-hset_mapping h (task_key t.id) (cancel_mapping now) (as_cancelled now t)
        (unfold task_to_hash get in assumption refl)

  -- A stored task whose times carry a zone and whose status is not final is cancelled, at a time
  -- that carries a zone: the call returns true, a worker's check sees it, and the task reads back
  -- as before but for its status and the time of the call.
  pub cancel_task_done :
      (now : Time) (s : Store) (t : Task)
      → IsStored s t
      → HasAwareTimes t
      → F.is_naive now ≡ false
      → is_final t.status ≡ false
      → ((cancel_task now s t.id).0 ≡ true)
        × (is_task_cancelled (cancel_task now s t.id).1 (str_uuid t.id) ≡ true)
        × (get_task now (cancel_task now s t.id).1 t.id ≡ some (stored (as_cancelled now t)))
  unfolding cancel_task get_task
  cancel_task_done now s t h aware utc live =
      let after = as_cancelled-Holds now s.hashes t h in
      rw (cancel_hash_done now s t (hgetall s.hashes (task_key t.id)) h live) (
        refl,
        is_task_cancelled-Holds _ (as_cancelled now t) after,
        hash_to_task-Holds now (as_cancelled now t) _
            (record { created = aware.created; started = aware.started; completed = utc }) after,
      )

  -- Cancelling a stored task whose status is final returns false and changes nothing.
  pub cancel_task_refused :
      (now : Time) (s : Store) (t : Task)
      → IsStored s t
      → is_final t.status ≡ true
      → cancel_task now s t.id ≡ (false, s)
  unfolding cancel_task
  cancel_task_refused now s t h final = cancel_hash_refused now s t _ h final
