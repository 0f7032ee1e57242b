-- ===== src/TaskRepository/Removal.antt =====
-- A task that is cancelled or deleted leaves the queue, and the others keep their order.
use mathlib.Core.List.{reverse, reverse-append, append-nil}
use gigaevo_platform.Prelude.{
  String, ◌≡◌, refl, sym, ap, ◌∙◌, ◌≢◌, inl, inr, true, false, not, Option, none, some, List, [],
  ◌∷◌, ◌++◌, map, arith, eq_iff, Bool-cases, cons_if, keep, All-mono, All-keep,
}
use gigaevo_platform.Prelude.Eq.{◌==◌, string_eq, nat_eq}
use gigaevo_platform.Formats.{Formats}
use gigaevo_platform.Redis.{Redis, Store, ListKey, list_key_eq, hash_key_eq, without}
use gigaevo_platform.Task.{Task, running}
use gigaevo_platform.TaskRepository.{
  is_final, cancel_task, cancel_mapping, delete_task, lrem_experiment,
}
use gigaevo_platform.TaskRepository.Queue.{
  ident, IsWaiting, Represents, IsWaiting-hset, IsWaiting-delete,
}
use gigaevo_platform.TaskRepository.Cancel.{IsStored, cancel_hash_done}
use gigaevo_platform.TaskRepository.Delete.{delete_hash_done}

without-append :
    (v : String) (xs ys : List String) → without v (xs ++ ys) ≡ without v xs ++ without v ys
without-append v [] ys = refl
without-append v (x ∷ xs) ys = ground (arith, without-append v xs ys)

different : (a b : String) → not (a == b) ≡ true → (b == a) ≡ false
different a b h = ground (arith, eq_iff a b, eq_iff b a)

module _ ⦃R : Redis⦄ ⦃F : Formats⦄ where
  open R use {lrange, lrem}
  open F use {Time, str_uuid}

  -- The tasks other than the one of this id.
  abbrev pub others : String → List Task → List Task
  others v ts = keep (λ u. not (ident u == v)) ts

  without-snoc :
      (v : String) (t : Task) (ts : List Task)
      → reverse (map ident ts) ++ without v (ident t ∷ [])
        ≡ reverse (map ident (cons_if (not (ident t == v)) t ts))
  without-snoc v t ts = elim (Bool-cases (ident t == v)) [
    | inl same ↦ rw same (append-nil _)
    | inr other ↦ rw other (sym (reverse-append (ident t ∷ []) (map ident ts)))
  ]

  without-reverse :
      (v : String) (ts : List Task)
      → without v (reverse (map ident ts)) ≡ reverse (map ident (others v ts))
  without-reverse v [] = refl
  without-reverse v (t ∷ ts) =
      ap (without v) (reverse-append (ident t ∷ []) (map ident ts))
      ∙ without-append v (reverse (map ident ts)) (ident t ∷ [])
      ∙ ap (λ xs. xs ++ without v (ident t ∷ [])) (without-reverse v ts)
      ∙ without-snoc v t (others v ts)

  lrange-lrem_experiment :
      (o : Option String) (v : String) (l : R.Lists)
      → lrange (lrem_experiment o v l) ListKey.task_queue ≡ lrange l ListKey.task_queue
  lrange-lrem_experiment none v l = refl
  lrange-lrem_experiment (some e) v l = elim (Bool-cases (e == "")) [
    | inl p ↦ rw p
    | inr p ↦ rw p (R.lrange-lrem l (ListKey.experiment_tasks e) ListKey.task_queue v)
  ]

  removed-order :
      (s : Store) (o : Option String) (v : String) (ts : List Task)
      → Represents s ts
      → lrange (lrem_experiment o v (lrem s.lists ListKey.task_queue v)) ListKey.task_queue
        ≡ reverse (map ident (others v ts))
  removed-order s o v ts r =
      lrange-lrem_experiment o v _
      ∙ R.lrange-lrem s.lists ListKey.task_queue ListKey.task_queue v
      ∙ ap (without v) r.order
      ∙ without-reverse v ts

  -- Cancelling a stored task with no final status leaves a store in which that task is no longer
  -- waiting, and the others wait in the same order.
  pub cancel-Represents :
      (now : Time) (s : Store) (t : Task) (ts : List Task)
      → Represents s ts
      → IsStored s t
      → is_final t.status ≡ false
      → Represents (cancel_task now s t.id).1 (others (ident t) ts)
  unfolding cancel_task
  cancel-Represents now s t ts r h live = rw (cancel_hash_done now s t _ h live) (record {
    order = removed-order s (some t.experiment_id) (ident t) ts r;
    waiting =
        All-mono _ (IsWaiting _) (others (ident t) ts)
          (λ u w.
            IsWaiting-hset s _ t.id (cancel_mapping now) u refl (different (ident u) (ident t) w.1)
              w.0)
          (All-keep (IsWaiting s) _ ts r.waiting);
  })

  -- Deleting a stored task that is not running leaves a store in which that task is no longer
  -- waiting, and the others wait in the same order.
  pub delete-Represents :
      (now : Time) (s : Store) (t : Task) (ts : List Task)
      → Represents s ts
      → IsStored s t
      → t.status ≢ running
      → Represents (delete_task now s t.id).1 (others (ident t) ts)
  unfolding delete_task
  delete-Represents now s t ts r h idle = rw (delete_hash_done now s t _ h idle) (record {
    order = removed-order s (some t.experiment_id) (ident t) ts r;
    waiting =
        All-mono _ (IsWaiting _) (others (ident t) ts)
          (λ u w. IsWaiting-delete s _ t.id u refl (different (ident u) (ident t) w.1) w.0)
          (All-keep (IsWaiting s) _ ts r.waiting);
  })
