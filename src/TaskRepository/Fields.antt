-- ===== src/TaskRepository/Fields.antt =====
-- The hash of a task after a write to it, or to another task.
use gigaevo_platform.Prelude.{
  String, All-mono, ◌≡◌, or_else, ◌∙◌, false, some, [], ◌∷◌, or_else, ◌∙◌, arith,
}
use gigaevo_platform.Prelude.Eq.{◌==◌, string_eq}
use gigaevo_platform.Prelude.Dict.{Dict, get}
use gigaevo_platform.Formats.{Formats}
use gigaevo_platform.Redis.{Redis, HashKey, Store, hash_key_eq}
use gigaevo_platform.Task.{Task, task_to_hash, hash_to_task}
use gigaevo_platform.Task.RoundTrip.{HasAwareTimes, Holds, stored, read_fields-Holds}
use gigaevo_platform.TaskRepository.{task_key, get_task, persist_task_state}

module _ ⦃R : Redis⦄ ⦃F : Formats⦄ where
  open R use {hgetall, hset, get-hset, hgetall-hset_ne}
  open F use {Time, Uuid, str_uuid}

  pub hash_to_task-Holds :
      (now : Time) (t : Task) (d : Dict String)
      → HasAwareTimes t
      → Holds t (get d)
      → hash_to_task now d ≡ some (stored t)
  unfolding hash_to_task task_to_hash get
  hash_to_task-Holds now t [] aware h = absurd (cc h.0)
  hash_to_task-Holds now t (e ∷ d) aware h = read_fields-Holds now t (get (e ∷ d)) aware h

  -- After a write of `m`, a field reads as `m` has it, and else as before.
  pub Holds-hset_mapping :
      (h : R.Hashes) (k : HashKey) (m : Dict String) (t : Task)
      → Holds t (λ f. or_else (get m f) (get (hgetall h k) f))
      → Holds t (get (hgetall (hset h k m) k))
  Holds-hset_mapping h k m t =
      All-mono (λ e. or_else (get m e.0) (get (hgetall h k) e.0) ≡ some e.1) _ (task_to_hash t)
        (λ e p. get-hset h k m e.0 ∙ p)

  pub Holds-hset :
      (h : R.Hashes) (t : Task)
      → Holds t (get (hgetall (hset h (task_key t.id) (task_to_hash t)) (task_key t.id)))
  Holds-hset h t =
      Holds-hset_mapping h (task_key t.id) (task_to_hash t) t
        (unfold task_to_hash get in ground arith)

  -- What a worker saves for a task whose times carry a zone, a later read returns, with empty texts
  -- read as no text.
  pub get_task-persist :
      (now : Time) (s : Store) (t : Task)
      → HasAwareTimes t
      → get_task now (persist_task_state s t) t.id ≡ some (stored t)
  unfolding get_task persist_task_state
  get_task-persist now s t aware = hash_to_task-Holds now t _ aware (Holds-hset s.hashes t)

  -- A write to another task's hash does not change what is stored for a task.
  pub hgetall-hset_other :
      (h : R.Hashes) (a b : Uuid) (m : Dict String)
      → (str_uuid a == str_uuid b) ≡ false
      → hgetall (hset h (task_key a) m) (task_key b) ≡ hgetall h (task_key b)
  hgetall-hset_other h a b m e = hgetall-hset_ne h (task_key a) (task_key b) m e
