-- ===== src/TaskRepository/Update.antt =====
-- `update_task`, on a task that is stored.
use mathlib.Core.Option
use gigaevo_platform.Prelude.{
  String, ◌≡◌, refl, ap, ◌∙◌, inl, inr, false, Option, none, some, [], ◌∷◌, arith, if◌then◌else◌,
  Bool-cases, or_else, get_or, All-mono,
}
use gigaevo_platform.Prelude.Eq.{◌==◌, string_eq, nat_eq}
use gigaevo_platform.Prelude.Dict.{Dict, get}
use gigaevo_platform.Prelude.Dict.{get-append}
use gigaevo_platform.Formats.{Formats}
use gigaevo_platform.Redis.{Redis, Store, HashKey}
use gigaevo_platform.Task.{Task, TaskStatus, TaskUpdate, status_value, task_to_hash, hash_to_task}
use gigaevo_platform.Task.RoundTrip.{Holds, HasAwareTimes, IsAware, stored}
use gigaevo_platform.TaskRepository.{
  task_key, is_final, entry, completion, task_updates, update_task, update_hash, hset_if_any,
}
use gigaevo_platform.TaskRepository.Fields.{hash_to_task-Holds}
use gigaevo_platform.TaskRepository.Cancel.{IsStored}

get-entry {ℓ} :
    {A : Type ℓ} (name : String) (text : A → String) (o : Option A) (f : String)
    → get (entry name text o) f ≡ (if name == f then Option.map text o else none)
unfolding get
get-entry name text none f = ground arith
get-entry name text (some a) f = refl

module _ ⦃R : Redis⦄ ⦃F : Formats⦄ where
  open R use {hgetall, get-hset}
  open F use {Time, isoformat, dumps, str_float}

  -- A final status sets the time of completion; no update clears it.
  abbrev pub completed_at_after : Time → Option TaskStatus → Option Time → Option Time
  completed_at_after now none old = old
  completed_at_after now (some st) old = if is_final st then some now else old

  -- The task with the fields that the update gives.
  abbrev pub as_updated : Time → TaskUpdate → Task → Task
  as_updated now u t = record t {
    status = get_or u.status t.status;
    completed_at = completed_at_after now u.status t.completed_at;
    result = or_else u.result t.result;
    error_message = or_else u.error_message t.error_message;
    progress = get_or u.progress t.progress;
    worker_id = or_else u.worker_id t.worker_id;
  }

  completion_text : Time → Option TaskStatus → Option String
  completion_text now none = none
  completion_text now (some st) = if is_final st then some (isoformat now) else none

  get-completion :
      (now : Time) (o : Option TaskStatus) (f : String)
      → get (completion now o) f ≡ (if "completed_at" == f then completion_text now o else none)
  unfolding get completion_text
  get-completion now none f = ground arith
  get-completion now (some st) f = ground arith

  -- What an update writes to a field.
  abbrev updated_field : Time → TaskUpdate → String → Option String
  updated_field now u f =
      or_else (if "status" == f then Option.map status_value u.status else none) (
        or_else (if "completed_at" == f then completion_text now u.status else none) (
          or_else (if "result" == f then Option.map dumps u.result else none) (
            or_else (if "error_message" == f then Option.map (λ e. e) u.error_message else none) (
              or_else (if "progress" == f then Option.map str_float u.progress else none)
                (if "worker_id" == f then Option.map (λ w. w) u.worker_id else none)))))

  get-task_updates :
      (now : Time) (u : TaskUpdate) (f : String)
      → get (task_updates now u) f ≡ updated_field now u f
  unfolding task_updates
  get-task_updates now u f = simp (get-append, get-entry, get-completion)

  get-hset_if_any :
      (h : R.Hashes) (k : HashKey) (m : Dict String) (f : String)
      → get (hgetall (hset_if_any h k m) k) f ≡ or_else (get m f) (get (hgetall h k) f)
  unfolding get
  get-hset_if_any h k [] f = refl
  get-hset_if_any h k (e ∷ m) f = get-hset h k (e ∷ m) f

  -- The fields after an update are those of the updated task.
  as_updated-Holds :
      (now : Time) (u : TaskUpdate) (t : Task) (field : String → Option String)
      → Holds t field
      → Holds (as_updated now u t) (λ f. or_else (updated_field now u f) (field f))
  unfolding task_to_hash completion_text
  as_updated-Holds now u t field h = ground arith

  update_hash_lem :
      (now : Time) (s : Store) (u : TaskUpdate) (t : Task) (d : Dict String)
      → Holds t (get d)
      → update_hash now s t.id u d ≡ (
          let h = hset_if_any s.hashes (task_key t.id) (task_updates now u) in
          (hash_to_task now (hgetall h (task_key t.id)), record s { hashes = h }))
  unfolding update_hash task_to_hash get
  update_hash_lem now s u t [] h = absurd (cc h.0)
  update_hash_lem now s u t (e ∷ d) h = refl

  hset_if_any-Holds :
      (now : Time) (h : R.Hashes) (u : TaskUpdate) (t : Task)
      → Holds t (get (hgetall h (task_key t.id)))
      → Holds
          (as_updated now u t)
          (get (hgetall (hset_if_any h (task_key t.id) (task_updates now u)) (task_key t.id)))
  hset_if_any-Holds now h u t p =
      All-mono _ _ (task_to_hash (as_updated now u t))
        (λ e q.
          get-hset_if_any h (task_key t.id) (task_updates now u) e.0
          ∙ ap (λ o. or_else o (get (hgetall h (task_key t.id)) e.0)) (get-task_updates now u e.0)
          ∙ q)
        (as_updated-Holds now u t (get (hgetall h (task_key t.id))) p)

  completed_at_after-IsAware :
      (now : Time) (o : Option TaskStatus) (old : Option Time)
      → F.is_naive now ≡ false
      → IsAware old
      → IsAware (completed_at_after now o old)
  completed_at_after-IsAware now none old utc h = h
  completed_at_after-IsAware now (some st) old utc h = elim (Bool-cases (is_final st)) [
    | inl p ↦ rw p utc
    | inr p ↦ rw p h
  ]

  -- An update, at a time that carries a zone, of a stored task whose times carry a zone writes just
  -- the fields that it gives, with the time of completion where the new status is final, and
  -- returns the task as it then reads back.
  pub update_task_done :
      (now : Time) (s : Store) (u : TaskUpdate) (t : Task)
      → IsStored s t
      → HasAwareTimes t
      → F.is_naive now ≡ false
      → ((update_task now s t.id u).0 ≡ some (stored (as_updated now u t)))
        × IsStored (update_task now s t.id u).1 (as_updated now u t)
  unfolding update_task
  update_task_done now s u t h aware utc =
      let after = hset_if_any-Holds now s.hashes u t h in
      rw (update_hash_lem now s u t _ h) (
        hash_to_task-Holds now (as_updated now u t) _
            (record {
              created = aware.created;
              started = aware.started;
              completed =
                  completed_at_after-IsAware now u.status t.completed_at utc aware.completed;
            })
            after,
        after,
      )
