-- ===== src/Samples/Pool.antt =====
-- A pool of two runners, one of which executes an experiment.
use gigaevo_platform.Prelude.{
  ℕ, ◌+◌, String, ◌≡◌, refl, true, false, Option, none, some, List, [], ◌∷◌, arith, leb,
  if◌then◌else◌, All, inr,
}
use gigaevo_platform.Prelude.Eq.{string_eq, nat_eq, ◌==◌}
use gigaevo_platform.Prelude.{is_some}
use gigaevo_platform.Dispatch.{PostReply, unreachable, accepted, rejected, start_experiment_forward}
use gigaevo_platform.Dispatch.Settled.{IsSettled, start_experiment_forward-IsSettled}
use gigaevo_platform.Runners.Capacity.{has_ready_runner_capacity-allocate}
use gigaevo_platform.Experiments.{Experiment, dispatching, completed, get_experiment}
use gigaevo_platform.Experiments.{queued, dispatch_row, claim_next_queued_for_dispatching}
use gigaevo_platform.Experiments.Claim.{IsClaim, claim_next_queued_for_dispatching-IsClaim}
use gigaevo_platform.Runners.{
  has_ready_runner_capacity, update_runner, Runner, Pool, busy, ready, count_active, get_runner,
}
use gigaevo_platform.Runners.Allocate.{
  allocate_runner_for_experiment, pick_runner_with_capacity, mark_busy,
}
use gigaevo_platform.Runners.Release.{release_runner_if_assigned}
use gigaevo_platform.Runners.Health.{Health}
use gigaevo_platform.Runners.Calls.{
  PoolCall, allocate, allocate_specific, release_assigned, health, set_experiment, perform_all,
}
use gigaevo_platform.Runners.Fair.{Fair, allocate-Fair}
use gigaevo_platform.Runners.Limit.{WithinLimit, perform_all-WithinLimit}
use gigaevo_platform.Runners.Holding.{IsHeld}
use gigaevo_platform.Runners.Ownership.{perform_all-IsHeld}
use gigaevo_platform.Runners.RoundTrip.{touch, allocate-release}
use gigaevo_platform.Runners.Reconcile.{
  settings, Answer, not_found, reported, Reconciler, sweep, count_of,
}
use gigaevo_platform.Runners.Sweeps.{sweep-IsHeld}
use gigaevo_platform.Runners.Missing.{IsLate, standing, visits, visits-standing}

abbrev experiment : String → Option String → Experiment
experiment id runner_id = record {
  id = id;
  status = dispatching;
  assigned_runner_id = runner_id;
  files_ready = true;
  status_message = none;
  created_at = 1;
  updated_at = 1;
  started_at = some 10;
}

abbrev busy_runner : Runner
busy_runner = record {
  id = "a";
  endpoint_url = "http://a";
  status = busy;
  last_heartbeat = none;
  current_experiment_id = some "e1";
}

abbrev free_runner : Runner
free_runner = record {
  id = "b";
  endpoint_url = "http://b";
  status = ready;
  last_heartbeat = none;
  current_experiment_id = none;
}

abbrev pool : Pool
pool = record {
  runners = busy_runner ∷ free_runner ∷ [];
  experiments = experiment "e1" (some "a") ∷ experiment "e2" none ∷ [];
}

allocate-Fair_example : Fair 2 [] "e2" 7 pool (allocate_runner_for_experiment 2 [] "e2" 7 pool)
allocate-Fair_example = allocate-Fair 2 [] "e2" 7 pool (omega arith)

abbrev silent : Health
silent = record { responding = false; repo_ready = none }

abbrev calls : List (PoolCall × ℕ)
calls =
    (allocate [] "e2", 7)
    ∷ (health "a" silent, 8)
    ∷ (allocate_specific "a" "e2", 9)
    ∷ (set_experiment "e2" completed, 10)
    ∷ (release_assigned "e2", 11)
    ∷ []

few : WithinLimit 2 pool
unfolding count_active
few id = ground arith

perform_all-WithinLimit_example : WithinLimit 2 (perform_all 2 calls pool)
perform_all-WithinLimit_example =
    perform_all-WithinLimit 2 calls pool (omega arith) (tt, (tt, (tt, (refl, (tt, tt))))) few

held : IsHeld "a" "e1" pool.runners
unfolding get_runner
held = (refl, (refl, (refl, tt)))

perform_all-IsHeld_example : IsHeld "a" "e1" (perform_all 1 calls pool).runners
perform_all-IsHeld_example =
    perform_all-IsHeld 1 "a" "e1" calls pool (omega arith)
      (refl, (refl, (refl, (refl, (refl, tt))))) held

keyed : All (λ r. get_runner pool.runners r.id ≡ some r) pool.runners
unfolding get_runner
keyed = (refl, (refl, tt))

given : (allocate_runner_for_experiment 1 [] "e2" 7 pool).0 ≡ some (mark_busy "e2" 7 free_runner)
unfolding allocate_runner_for_experiment pick_runner_with_capacity
given = refl

allocate-release_example :
    let (done, after) =
      release_runner_if_assigned 1 "e2" 9 (allocate_runner_for_experiment 1 [] "e2" 7 pool).1 in
    (done ≡ true) × (after.runners ≡ update_runner "b" (touch 9) pool.runners)
allocate-release_example =
    allocate-release 1 [] "e2" 7 9 pool (mark_busy "e2" 7 free_runner) (omega arith) keyed
      (refl, (refl, tt)) given

abbrev reconciler : Reconciler
reconciler = record { pool = pool; counts = [] }

abbrev same_text : String → String
same_text s = s

abbrev at_work : String → String → Answer
at_work id e = reported "running"

sweep-IsHeld_example :
    IsHeld "a" "e1"
      (sweep same_text same_text (settings 1 30 2 false) at_work 50 reconciler).pool.runners
sweep-IsHeld_example =
    sweep-IsHeld same_text same_text (settings 1 30 2 false) "a" "e1" at_work 50 reconciler
      (omega arith) refl refl held

abbrev never_heard : String → String → Answer
never_heard id e = not_found

late : All (λ now. IsLate (settings 1 30 2 false) now pool "e1") (50 ∷ 65 ∷ [])
unfolding get_experiment
late = (inr (inr (omega arith)), (inr (inr (omega arith)), tt))

uncounted : count_of [] "a" "e1" ≡ 0
unfolding count_of
uncounted = refl

visits-standing_example :
    standing (
      get_runner
        (visits same_text same_text
          (settings 1 30 2 false)
          never_heard
          (50 ∷ 65 ∷ [])
          busy_runner
          reconciler).pool.runners
        "a")
    ≡ (if leb 2 (count_of [] "a" "e1" + 2) then some (ready, none) else some (busy, some "e1"))
visits-standing_example =
    visits-standing same_text same_text (settings 1 30 2 false) never_heard busy_runner "e1"
      (omega arith) refl refl refl refl (50 ∷ 65 ∷ []) reconciler late keyed.0
      (omega (arith, uncounted)) (omega (arith, uncounted))

has_ready_runner_capacity-allocate_example :
    has_ready_runner_capacity 2 pool ≡ is_some (allocate_runner_for_experiment 2 [] "e2" 7 pool).0
has_ready_runner_capacity-allocate_example = has_ready_runner_capacity-allocate 2 "e2" 7 pool

abbrev second_try : ℕ → PostReply
second_try attempt = if attempt == 1 then unreachable else accepted

abbrev refuses : ℕ → PostReply
refuses attempt = rejected

start_experiment_forward-IsSettled_example :
    IsSettled "e2" pool (start_experiment_forward 1 [] "e2" none true 7 second_try refuses pool)
start_experiment_forward-IsSettled_example =
    start_experiment_forward-IsSettled 1 "e2" 7 second_try refuses pool (omega arith)
      (refl, (refl, tt)) [] none true keyed

abbrev queue : List Experiment
queue =
    record (experiment "e4" none) { status = queued; created_at = 3 }
    ∷ record (experiment "e3" none) { status = queued; created_at = 2 }
    ∷ []

-- The experiment that was created first is claimed, unless its row is locked.
claimed_first :
    (claim_next_queued_for_dispatching [] 9 queue).0
    ≡ some (dispatch_row 9 (record (experiment "e3" none) { status = queued; created_at = 2 }))
unfolding claim_next_queued_for_dispatching
claimed_first = refl

claim_next_queued_for_dispatching-IsClaim_example :
    IsClaim ("e3" ∷ []) 9 queue (claim_next_queued_for_dispatching ("e3" ∷ []) 9 queue)
claim_next_queued_for_dispatching-IsClaim_example =
    claim_next_queued_for_dispatching-IsClaim ("e3" ∷ []) 9 queue
