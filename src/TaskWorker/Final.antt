-- ===== src/TaskWorker/Final.antt =====
-- What the store holds of a task when its worker has done with it.
use gigaevo_platform.Prelude.{
  String, Option, none, ◌≡◌, refl, sym, ap, ◌∙◌, ◌⊎◌, inl, inr, Bool, true, not, ◌&&◌, some, [],
  ◌∷◌, arith, if◌then◌else◌, Bool-cases, get_or, and_right, Option, and_left, eq_iff,
}
use gigaevo_platform.Prelude.Eq.{◌==◌, string_eq, nat_eq, beq_refl}
use gigaevo_platform.Prelude.Dict.{Dict, get}
use mathlib.Core.Path.{subst}
use gigaevo_platform.Formats.{Formats}
use gigaevo_platform.Redis.{Redis, Store, HashKey, hash_key_eq}
use gigaevo_platform.Task.{
  TaskType, clone_repo, Task, TaskStatus, cancelled, status_value, task_to_hash,
}
use gigaevo_platform.Task.RoundTrip.{Holds}
use gigaevo_platform.TaskRepository.{is_task_cancelled, persist_task_state, task_key}
use gigaevo_platform.TaskRepository.Fields.{Holds-hset}
use gigaevo_platform.TaskRepository.Cancel.{IsStored}
use gigaevo_platform.TaskWorker.Handlers.{Services, handle, dispatch}
use gigaevo_platform.TaskWorker.{
  release, sync_experiment, update_experiment_status_after_run, Worker, Others, busy, run_task,
  start, finish, clean_up, execute_task, hset_nonempty, experiment_mapping, is_run_experiment,
  maybe_delete_after_cancel,
}

module _ ⦃F : Formats⦄ where
  dispatch-id :
      (type : TaskType) (services : Services) (task : Task)
      → (dispatch type services task).id ≡ task.id
  unfolding dispatch
  dispatch-id clone_repo services task = refl
  dispatch-id type services task = ground arith

module _ ⦃R : Redis⦄ ⦃F : Formats⦄ where
  open R use {hgetall, hset}
  open F use {Time, str_uuid}

  handle-id : (services : Services) (task : Task) → (handle services task).id ≡ task.id
  unfolding handle
  handle-id services task = dispatch-id task.task_type services task

  execute_task-id :
      (now : Time) (services : Services) (others : Others) (w : Worker) (s : Store) (task : Task)
      → (execute_task now services others w s task).0.id ≡ task.id
  unfolding execute_task run_task finish
  execute_task-id now services others w s task = ground (
    arith,
    handle-id services (start now (record w { current_task = some task; status = busy }) task),
  )

  -- A hash asks for its own deletion when it is flagged and cancelled.
  abbrev pub is_requested : Dict String → Bool
  is_requested d =
      get_or (get d "delete_after_cancel") "" == "1"
      && get_or (get d "status") "" == status_value cancelled

  status_of_value :
      (st : TaskStatus) → (status_value st == status_value cancelled) ≡ true → st ≡ cancelled
  status_of_value cancelled h = refl
  status_of_value _ h = cc

  requested-status :
      (task : Task) (d : Dict String)
      → Holds task (get d)
      → is_requested d ≡ true
      → task.status ≡ cancelled
  unfolding task_to_hash
  requested-status task d h p =
      status_of_value task.status
        (sym (ap (λ o. get_or o "" == status_value cancelled) h.1.1.1.0) ∙ and_right _ _ p)

  persist_saved : (s : Store) (task : Task) → IsStored (persist_task_state s task) task
  unfolding persist_task_state
  persist_saved s task = Holds-hset s.hashes task

  hgetall-hset_nonempty :
      (h : R.Hashes) (e i : String) (m : Dict String)
      → hgetall (hset_nonempty h (HashKey.experiment_status e) m) (HashKey.task i)
        ≡ hgetall h (HashKey.task i)
  hgetall-hset_nonempty h e i [] = refl
  hgetall-hset_nonempty h e i (x ∷ m) =
      R.hgetall-hset_ne h (HashKey.experiment_status e) (HashKey.task i) (x ∷ m) refl

  hgetall-delete_if_requested :
      (s : Store) (id e : String)
      → hgetall (maybe_delete_after_cancel s id e).hashes (HashKey.task id) ≡ (
          if is_requested (hgetall s.hashes (HashKey.task id))
          then []
          else hgetall s.hashes (HashKey.task id))
  unfolding maybe_delete_after_cancel
  hgetall-delete_if_requested s id e =
      elim (Bool-cases (is_requested (hgetall s.hashes (HashKey.task id)))) [
        | inl p ↦ rw p (
            R.hgetall-delete s.hashes (HashKey.task id) (HashKey.task id) ∙ (rw (beq_refl id) refl))
        | inr p ↦ rw p refl
      ]

  hgetall-release :
      (now : Time) (w : Worker) (s : Store) (id : String)
      → hgetall (release now w s).1.hashes (HashKey.task id) ≡ hgetall s.hashes (HashKey.task id)
  unfolding release
  hgetall-release now w s id =
      R.hgetall-hset_ne _ (HashKey.worker w.worker_id) (HashKey.task id) _ refl
      ∙ R.hgetall-hincrby_ne s.hashes (HashKey.worker w.worker_id) (HashKey.task id) _ refl

  hgetall-sync_experiment :
      (now : Time) (task : Task) (s : Store) (id : String)
      → hgetall (sync_experiment now task s).hashes (HashKey.task id)
        ≡ hgetall s.hashes (HashKey.task id)
  unfolding sync_experiment update_experiment_status_after_run
  hgetall-sync_experiment now task s id =
      elim (Bool-cases (is_run_experiment task.task_type && not (task.experiment_id == ""))) [
        | inl p ↦ rw p (
            hgetall-hset_nonempty s.hashes task.experiment_id id
              (experiment_mapping now task.status))
        | inr p ↦ rw p
      ]

  -- After the last write a task's hash changes only by being deleted on request.
  hgetall-clean_up :
      (now : Time) (w : Worker) (s : Store) (task : Task)
      → hgetall (clean_up now w s task).1.hashes (task_key task.id) ≡ (
          if is_requested (hgetall s.hashes (task_key task.id))
          then []
          else hgetall s.hashes (task_key task.id))
  unfolding clean_up
  hgetall-clean_up now w s task =
      hgetall-sync_experiment now task _ (str_uuid task.id)
      ∙ hgetall-delete_if_requested (release now w s).1 (str_uuid task.id) task.experiment_id
      ∙ rw (hgetall-release now w s (str_uuid task.id)) refl

  -- The task's hash asks for its deletion once it is cancelled.
  abbrev pub IsFlagged : Store → Task → Type 0
  IsFlagged s task = get (hgetall s.hashes (task_key task.id)) "delete_after_cancel" ≡ some "1"

  -- A write of a task does not touch the flag.
  flag-persist :
      (s : Store) (task : Task)
      → get (hgetall (persist_task_state s task).hashes (task_key task.id)) "delete_after_cancel"
        ≡ get (hgetall s.hashes (task_key task.id)) "delete_after_cancel"
  unfolding persist_task_state task_to_hash get
  flag-persist s task =
      R.get-hset s.hashes (task_key task.id) (task_to_hash task) "delete_after_cancel"

  flagged_lem : (o : Option String) → (get_or o "" == "1") ≡ true → o ≡ some "1"
  flagged_lem none h = cc
  flagged_lem (some v) h = ground (arith, eq_iff v "1", h)

  requested-IsFlagged :
      (d : Dict String) → is_requested d ≡ true → get d "delete_after_cancel" ≡ some "1"
  requested-IsFlagged d p = flagged_lem (get d "delete_after_cancel") (and_left _ _ p)

  requested_lem :
      (task : Task) (d : Dict String)
      → Holds task (get d)
      → task.status ≡ cancelled
      → get d "delete_after_cancel" ≡ some "1"
      → is_requested d ≡ true
  unfolding task_to_hash
  requested_lem task d h ended flag =
      let status : get d "status" ≡ some (status_value cancelled) =
        h.1.1.1.0 ∙ ap (λ st. some (status_value st)) ended in
      rw (flag, status) refl

  -- Where a task that is stored stands after the clean-up: there, or deleted as it was asked for.
  abbrev pub Kept : Store → Task → Store → Type 0
  Kept before done s' =
      (¬ ((done.status ≡ cancelled) × IsFlagged before done) × IsStored s' done)
      ⊎ ((done.status ≡ cancelled)
          × IsFlagged before done
          × (hgetall s'.hashes (task_key done.id) ≡ []))

  clean_up-Kept :
      (now : Time) (w : Worker) (before : Store) (task : Task)
      → Kept before task (clean_up now w (persist_task_state before task) task).1
  clean_up-Kept now w before task =
      let x = persist_task_state before task in
      let d = hgetall x.hashes (task_key task.id) in
      let h : IsStored x task = persist_saved before task in
      let same = flag-persist before task in
      elim (Bool-cases (is_requested d)) [
        | inl p ↦ inr (
          requested-status task d h p,
          sym same ∙ requested-IsFlagged d p,
          hgetall-clean_up now w x task ∙ rw p refl,
        )
        | inr p ↦ inl (
          λ asked. cc (p, requested_lem task d h asked.0 (same ∙ asked.1)),
          rw (hgetall-clean_up now w x task) (rw p h),
        )
      ]

  -- If nobody else writes after the worker's last write, the store holds the task as the worker
  -- left it, unless the task is cancelled and its hash, as that write found it, asked for the
  -- deletion of a cancelled task; then the store holds no hash of it.
  pub execute_task_saves :
      (now : Time) (services : Services) (others : Others) (w : Worker) (s : Store) (task : Task)
      → ((x : Store) → others.after_finish x ≡ x)
      → let (done, w', s') = execute_task now services others w s task in
        let (ran, w'', s'') =
          run_task now services others
            (record w { current_task = some task; status = busy })
            s
            task in
        Kept (others.before_finish s'') done s'
  unfolding execute_task
  execute_task_saves now services others w s task alone =
      let (ran, w', s') =
        run_task now services others (record w { current_task = some task; status = busy }) s
          task in
      let done = finish now (is_task_cancelled s' (str_uuid task.id)) ran in
      let before = others.before_finish s' in
      subst (λ x. Kept before done (clean_up now w' x done).1) (sym (alone _))
        (clean_up-Kept now w' before done)

  -- If the worker's last check sees a cancellation, the task ends as cancelled, whatever the
  -- handler made of it.
  pub execute_task_cancelled :
      (now : Time) (services : Services) (others : Others) (w : Worker) (s : Store) (task : Task)
      → is_task_cancelled
          (run_task now services others
            (record w { current_task = some task; status = busy })
            s
            task).2
          (str_uuid task.id)
        ≡ true
      → (execute_task now services others w s task).0.status ≡ cancelled
  unfolding execute_task run_task finish
  execute_task_cancelled now services others w s task seen = rw seen (ground arith)
