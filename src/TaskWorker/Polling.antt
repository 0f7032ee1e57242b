-- ===== src/TaskWorker/Polling.antt =====
-- The polling loop of runner_api/src/workers/task_worker.py: `start`, `stop`, `_get_next_task`,
-- `_should_continue_running` and `_heartbeat`. A turn is one round of the loop, with its time, the
-- answers of the services and what other clients do; sleeping changes nothing.
use gigaevo_platform.Prelude.{
  ◌≤◌, ◌⊎◌, inl, inr, ap, ◌∙◌, Bool-cases, ◌≡◌, refl, Bool, true, false, Option, none, some, List,
  [], ◌∷◌, if◌then◌else◌, get_or, ℕ, length, All, is_some, suc, arith,
}
use gigaevo_platform.Prelude.Eq.{◌==◌, string_eq}
use gigaevo_platform.Prelude.Dict.{get}
use gigaevo_platform.Formats.{Formats}
use gigaevo_platform.Redis.{Redis, Store, HashKey, SetKey}
use gigaevo_platform.Task.{Task}
use gigaevo_platform.TaskRepository.{claim_next_task, cancel_task, is_final}
use gigaevo_platform.TaskWorker.Outcome.{execute_task_ends}
use gigaevo_platform.Prelude.{if-elim}
use gigaevo_platform.TaskWorker.Handlers.{Services}
use gigaevo_platform.TaskWorker.{
  Worker, Others, idle, offline, worker_status_value, update_worker_status, execute_task,
}

module _ ⦃R : Redis⦄ ⦃F : Formats⦄ where
  open R use {hgetall, hset, sadd}
  open F use {Time, isoformat}

  pub record Turn : Type 0 where
    pub now : Time
    pub services : Services
    pub others : Others

  abbrev pub stop_requested : Worker → Store → Bool
  stop_requested w s =
      get_or (get (hgetall s.hashes (HashKey.worker w.worker_id)) "stop_requested") "" == "1"

  abbrev set_offline : Worker → Store → Store
  set_offline w s = record s {
    hashes =
        hset s.hashes (HashKey.worker w.worker_id) (("status", worker_status_value offline) ∷ []);
  }

  -- `_should_continue_running`
  unfoldable pub should_continue_running : Worker → Store → Bool × Store
  should_continue_running w s = if stop_requested w s then (false, set_offline w s) else (true, s)

  -- `_heartbeat`
  unfoldable pub heartbeat : Time → Worker → Store → Store
  heartbeat now w s = record s {
    hashes = hset s.hashes (HashKey.worker w.worker_id) (("last_heartbeat", isoformat now) ∷ []);
    sets = sadd s.sets SetKey.workers w.worker_id;
  }

  -- What is done with the answer of `_get_next_task`.
  abbrev pub work_on : Turn → Worker → Option Task × Store → Option Task × Worker × Store
  work_on turn w (none, s) = (none, w, s)
  work_on turn w (some task, s) =
      let (done, w', s') = execute_task turn.now turn.services turn.others w s task in
      (some done, w', s')

  abbrev pub collect : Option Task → List Task → List Task
  collect none done = done
  collect (some task) done = task ∷ done

  -- The loop, with the tasks that it has executed; a stop flag ends it.
  unfoldable pub poll : List Turn → Worker → Store → List Task × Worker × Store
  unfolding should_continue_running heartbeat
  poll [] w s = ([], w, s)
  poll (turn ∷ turns) w s =
      let (goes_on, s1) = should_continue_running w s in
      let (task, w', s2) = work_on turn w (claim_next_task turn.now (heartbeat turn.now w s1)) in
      let (done, w'', s3) = poll turns w' s2 in
      if goes_on then (collect task done, w'', s3) else ([], w, s1)

  -- `start`
  unfoldable pub run_worker : Time → List Turn → Worker → Store → List Task × Worker × Store
  unfolding poll update_worker_status
  run_worker now turns w s =
      let (w', s') = update_worker_status now w idle none s in poll turns w' s'

  -- `stop`, on the store: the current task, if there is one, is cancelled.
  unfoldable pub stop_worker : Time → Worker → Store → Store
  unfolding cancel_task
  stop_worker now w s = elim w.current_task [ none ↦ s | some task ↦ (cancel_task now s task.id).1 ]

  -- A task that has ended, with its time.
  abbrev pub IsEnded : Task → Type 0
  IsEnded t = (is_final t.status ≡ true) × (is_some t.completed_at ≡ true)

  -- A worker that waits for a task.
  abbrev pub IsFree : Worker → Type 0
  IsFree w = (w.status ≡ idle) × (w.current_task ≡ none)

  -- What a loop of some rounds leaves: ended tasks, one per round at most, and a free worker.
  abbrev Ended : ℕ → List Task × Worker × Store → Type 0
  Ended rounds (done, w, s) = All IsEnded done × (length done ≤ rounds) × IsFree w

  work_on-IsFree :
      (turn : Turn) (w : Worker) (claim : Option Task × Store)
      → IsFree w
      → IsFree (work_on turn w claim).1
  work_on-IsFree turn w (none, s) free = free
  work_on-IsFree turn w (some task, s) free =
      let ends = execute_task_ends turn.now turn.services turn.others w s task in (ends.2, ends.3)

  collect-Ended :
      (turn : Turn) (w : Worker) (claim : Option Task × Store) (rounds : ℕ)
      → (rest : List Task × Worker × Store) → Ended rounds rest
      → Ended (suc rounds) (collect (work_on turn w claim).0 rest.0, rest.1, rest.2)
  collect-Ended turn w (none, s) rounds rest h = (h.0, omega (arith, h.1), h.2)
  collect-Ended turn w (some task, s) rounds rest h =
      let ends = execute_task_ends turn.now turn.services turn.others w s task in
      (((ends.0, ends.1), h.0), omega (arith, h.1), h.2)

  poll-Ended :
      (turns : List Turn) (w : Worker) (s : Store)
      → IsFree w
      → Ended (length turns) (poll turns w s)
  unfolding poll
  poll-Ended [] w s free = (tt, omega arith, free)
  poll-Ended (turn ∷ turns) w s free =
      let s1 = (should_continue_running w s).1 in
      let claim = claim_next_task turn.now (heartbeat turn.now w s1) in
      let step = work_on turn w claim in
      let rest = poll turns step.1 step.2 in
      if-elim (Ended (suc (length turns))) (should_continue_running w s).0
        (collect step.0 rest.0, rest.1, rest.2) ([], w, s1)
        (λ b.
          collect-Ended turn w claim (length turns) rest
            (poll-Ended turns step.1 step.2 (work_on-IsFree turn w claim free)))
        (λ b. (tt, omega arith, free))

  -- The hash of a worker has the stop flag.
  abbrev pub IsStopped : Worker → Store → Type 0
  IsStopped w s = get (hgetall s.hashes (HashKey.worker w.worker_id)) "stop_requested" ≡ some "1"

  poll-stopped :
      (turns : List Turn) (w : Worker) (s : Store)
      → (stop_requested w s ≡ false) ⊎ ((poll turns w s).0 ≡ [])
  unfolding poll should_continue_running
  poll-stopped [] w s = inr refl
  poll-stopped (turn ∷ turns) w s = elim (Bool-cases (stop_requested w s)) [
    | inl p ↦ inr (rw p refl)
    | inr p ↦ inl p
  ]

  -- The write of the worker's status leaves the flag as it is.
  stop_requested-update :
      (now : Time) (w : Worker) (s : Store)
      → IsStopped w s
      → stop_requested w (update_worker_status now w idle none s).1 ≡ true
  unfolding update_worker_status get
  stop_requested-update now w s flag =
      ap (λ o. get_or o "" == "1")
        (R.get-hset s.hashes (HashKey.worker w.worker_id) _ "stop_requested" ∙ flag)

  run_worker-IsStopped :
      (now : Time) (turns : List Turn) (w : Worker) (s : Store)
      → (¬ IsStopped w s) ⊎ ((run_worker now turns w s).0 ≡ [])
  unfolding run_worker update_worker_status
  run_worker-IsStopped now turns w s =
      elim (poll-stopped turns (record w { status = idle })
        (update_worker_status now w idle none s).1) [
          | inl p ↦ inl (λ flag. cc (p, stop_requested-update now w s flag))
          | inr p ↦ inr p
        ]

  -- Whatever the services answer and other clients do in any number of rounds, a worker that is
  -- started with no current task executes one task per round at most, leaves each of these with a
  -- final status and a time of completion, and is idle with no current task afterwards; and it
  -- executes none if its hash has the stop flag when it is started.
  pub run_worker-ends :
      (now : Time) (turns : List Turn) (w : Worker) (s : Store)
      → w.current_task ≡ none
      → let (done, w', s') = run_worker now turns w s in
        All IsEnded done
        × (length done ≤ length turns)
        × IsFree w'
        × ((¬ IsStopped w s) ⊎ (done ≡ []))
  unfolding run_worker update_worker_status
  run_worker-ends now turns w s none_yet =
      let loop =
        poll-Ended turns (record w { status = idle }) (update_worker_status now w idle none s).1
          (refl, none_yet) in
      (loop.0, loop.1, loop.2, run_worker-IsStopped now turns w s)
