-- ===== src/TaskRepository/Queue.antt =====
-- The task queue as a first-in first-out queue of tasks: what a store represents, and what the
-- repository's methods do to it.
use mathlib.Core.List.{reverse, reverse-append, map-append}
use gigaevo_platform.Prelude.{
  String, ◌≡◌, ◌≢◌, refl, ap, sym, false, none, some, List, [], ◌∷◌, ◌++◌, map, All, All-mono,
  All-zip, All-append, ◌∙◌,
}
use gigaevo_platform.Prelude.Eq.{◌==◌, string_eq}
use gigaevo_platform.Prelude.Dict.{Dict, get}
use gigaevo_platform.Formats.{Formats}
use gigaevo_platform.Redis.{Redis, Store, ListKey, list_key_eq}
use gigaevo_platform.Task.{Task, TaskStatus, cancelled, status_value, task_to_hash}
use gigaevo_platform.Task.RoundTrip.{HasAwareTimes, Holds, stored}
use gigaevo_platform.TaskRepository.{task_key, add_enqueue_ops, claim_next_task, claimed}
use gigaevo_platform.TaskRepository.Fields.{hash_to_task-Holds, Holds-hset, hgetall-hset_other}

module _ ⦃R : Redis⦄ ⦃F : Formats⦄ where
  open R use {hgetall, hset, lrange, lpush, brpop}
  open F use {Time, Uuid, str_uuid}

  abbrev pub ident : Task → String
  ident t = str_uuid t.id

  -- A waiting task is stored as it is, with times that carry a zone, and is not cancelled.
  pub record IsWaiting (s : Store) (t : Task) : Type 0 where
    pub holds : Holds t (get (hgetall s.hashes (task_key t.id)))
    pub aware : HasAwareTimes t
    pub live : t.status ≢ cancelled

  -- The tasks that wait in the store, the next to be claimed first.
  pub record Represents (s : Store) (ts : List Task) : Type 0 where
    pub order : lrange s.lists ListKey.task_queue ≡ reverse (map ident ts)
    pub waiting : All (IsWaiting s) ts

  status_live :
      (st : TaskStatus) → st ≢ cancelled → (status_value st == status_value cancelled) ≡ false
  status_live cancelled h = absurd (h refl)
  status_live _ h = refl

  claimed-Holds :
      (now : Time) (t : Task) (d : Dict String)
      → HasAwareTimes t
      → t.status ≢ cancelled
      → Holds t (get d)
      → claimed now d ≡ some (stored t)
  unfolding claimed task_to_hash get
  claimed-Holds now t [] aware live h = absurd (cc h.0)
  claimed-Holds now t (e ∷ d) aware live h =
      rw (h.1.1.1.0, status_live t.status live) (hash_to_task-Holds now t (e ∷ d) aware h)

  reverse-cons :
      (t : Task) (ts : List Task)
      → reverse (map ident (t ∷ ts)) ≡ reverse (map ident ts) ++ ident t ∷ []
  reverse-cons t ts = reverse-append (ident t ∷ []) (map ident ts)

  reverse-snoc :
      (t : Task) (ts : List Task)
      → reverse (map ident (ts ++ t ∷ [])) ≡ ident t ∷ reverse (map ident ts)
  reverse-snoc t ts = rw map-append (reverse-append (map ident ts) (ident t ∷ []))

  pub IsWaiting_same_hashes :
      (s s' : Store) (t : Task) → s'.hashes ≡ s.hashes → IsWaiting s t → IsWaiting s' t
  IsWaiting_same_hashes s s' t e w = record { holds = rw e w.holds; aware = w.aware; live = w.live }

  -- A write to the hash of one task leaves every other task waiting.
  pub IsWaiting-hset :
      (s s' : Store) (a : Uuid) (m : Dict String) (t : Task)
      → s'.hashes ≡ hset s.hashes (task_key a) m
      → (str_uuid a == ident t) ≡ false
      → IsWaiting s t
      → IsWaiting s' t
  IsWaiting-hset s s' a m t e other w = record {
    holds = rw (e, hgetall-hset_other s.hashes a t.id m other) w.holds;
    aware = w.aware;
    live = w.live;
  }

  -- So does the removal of the hash of one task.
  pub IsWaiting-delete :
      (s s' : Store) (a : Uuid) (t : Task)
      → s'.hashes ≡ R.delete s.hashes (task_key a)
      → (str_uuid a == ident t) ≡ false
      → IsWaiting s t
      → IsWaiting s' t
  IsWaiting-delete s s' a t e other w = record {
    holds = rw (e, R.hgetall-delete s.hashes (task_key a) (task_key t.id)) (rw other w.holds);
    aware = w.aware;
    live = w.live;
  }

  -- From a store in which tasks wait, a claim takes the one that has waited longest, returns it
  -- with empty texts read as no text, and leaves a store in which the others wait in their order.
  pub claim-Represents :
      (now : Time) (s : Store) (t : Task) (ts : List Task)
      → Represents s (t ∷ ts)
      → (s' : Store) × (claim_next_task now s ≡ (some (stored t), s')) × Represents s' ts
  unfolding claim_next_task
  claim-Represents now s t ts r =
      let (rest, popped, left) =
        R.brpop_last s.lists ListKey.task_queue _ (ident t) (r.order ∙ reverse-cons t ts) in
      let w = r.waiting.0 in
      (
        record s { lists = rest },
        rw (popped, claim_next_task) (rw (claimed-Holds now t _ w.aware w.live w.holds)),
        record {
          order = left ListKey.task_queue;
          waiting = All-mono (IsWaiting s) _ ts (λ u. IsWaiting_same_hashes s _ u refl) r.waiting.1;
        },
      )

  -- With no task waiting a claim times out and changes nothing.
  pub claim_none : (now : Time) (s : Store) → Represents s [] → claim_next_task now s ≡ (none, s)
  unfolding claim_next_task
  claim_none now s r = rw (R.brpop_empty s.lists ListKey.task_queue r.order, claim_next_task)

  -- Enqueuing a task with a new id, whose times carry a zone and which is not cancelled, on a store
  -- in which some tasks wait, puts it behind all that wait.
  pub enqueue-Represents :
      (s : Store) (t : Task) (ts : List Task)
      → Represents s ts
      → HasAwareTimes t
      → t.status ≢ cancelled
      → All (λ u. (ident t == ident u) ≡ false) ts
      → Represents (add_enqueue_ops s t) (ts ++ t ∷ [])
  unfolding add_enqueue_ops
  enqueue-Represents s t ts r aware live fresh = record {
    order =
        R.lrange-lpush _ ListKey.task_queue ListKey.task_queue (ident t)
        ∙ ap (λ ids. ident t ∷ ids)
            (R.lrange-lpush s.lists (ListKey.experiment_tasks t.experiment_id) ListKey.task_queue
                (ident t)
              ∙ r.order)
        ∙ sym (reverse-snoc t ts);
    waiting =
        All-append (IsWaiting _) ts (t ∷ [])
          (All-zip _ _ (IsWaiting _) ts
            (λ u f w. IsWaiting-hset s _ t.id (task_to_hash t) u refl f w) fresh r.waiting)
          (record { holds = Holds-hset s.hashes t; aware = aware; live = live }, tt);
  }
