-- ===== src/Runners/Ownership.antt =====
-- Who holds a runner, under the calls on the pool, with one experiment per runner.
use gigaevo_platform.Prelude.{
  ℕ, ◌≤◌, String, ◌≡◌, refl, sym, ◌∙◌, Bool, true, not, ◌||◌, Option, none, some, List, [], ◌∷◌,
  arith, leb, if◌then◌else◌, keep, All, All-keep,
}
use gigaevo_platform.Prelude.Eq.{◌==◌, string_eq, nat_eq}
use mathlib.Core.Path.{subst}
use gigaevo_platform.Runners.{
  Runner, RunnerInstanceStatus, Pool, has_current, get_runner, update_runner,
}
use gigaevo_platform.Runners.Allocate.{
  picked, admitted, allocate_runner_for_experiment, allocate_specific_runner_for_experiment,
}
use gigaevo_platform.Runners.Release.{
  free_current, free_slot, holder, write_row, mark_ready, recompute_runner_release,
  scalar_one_or_none, release_runner_if_assigned, release_runner_by_id_if_experiment,
  set_runner_ready,
}
use gigaevo_platform.Runners.Health.{
  Health, set_url, set_status, create_or_update_runner, create_or_update, update_known,
  check_health, check_found, write_status, health_status, update_instance_status,
}
use gigaevo_platform.Runners.Calls.{
  PoolCall, allocate, allocate_specific, release_assigned, release_by_id, set_ready, health,
  set_experiment, perform, perform_all,
}
use gigaevo_platform.Runners.Holding.{
  is_kept, IsHeld, update_runner-is_some, update_runner-same, get_runner-All,
}
use gigaevo_platform.Runners.Writes.{
  occupy-IsHeld, picked-other, admitted-other, free_current-IsHeld, by_id-IsHeld, ready-IsHeld,
}

-- A call that does not release this experiment, nor this runner.
abbrev pub spares : String → String → PoolCall → Bool
spares id e (release_assigned f) = not (f == e)
spares id e (release_by_id i f) = not (i == id) || not (f == e)
spares id e (set_ready i) = not (i == id)
spares id e _ = true

write_status-IsHeld :
    (id e k : String) (now : ℕ) (s : Option RunnerInstanceStatus) (pool : Pool) (r : Runner)
    → get_runner pool.runners k ≡ some r
    → IsHeld id e pool.runners
    → IsHeld id e (write_status k now s pool).runners
unfolding update_instance_status create_or_update_runner
write_status-IsHeld id e k now none pool r p h = h
write_status-IsHeld id e k now (some s) pool r p h =
    let f : Runner → Runner = λ x. set_url r.endpoint_url (set_status s now x) in
    let updated : IsHeld id e (update_runner k f pool.runners) = (
      update_runner-is_some k id f pool.runners (λ x. refl) ∙ h.0,
      update_runner-same k id e f pool.runners (λ x. (refl, refl)) h.1,
    ) in
    subst (λ o. IsHeld id e (update_known k (set_status s now) o pool.runners)) (sym p)
      (subst
        (λ o. IsHeld id e (create_or_update k r.endpoint_url (set_status s now) o pool.runners))
        (sym p) updated)

check_found-IsHeld :
    (id e k : String) (x : Health) (now : ℕ) (pool : Pool) (found : Option Runner)
    → get_runner pool.runners k ≡ found
    → IsHeld id e pool.runners
    → IsHeld id e (check_found k x now found pool).runners
check_found-IsHeld id e k x now pool none p h = h
check_found-IsHeld id e k x now pool (some r) p h =
    write_status-IsHeld id e k now (health_status x r.status) pool r p h

pub release_runner_by_id_if_experiment-IsHeld :
    (limit : ℕ) (id e k f : String) (now : ℕ) (pool : Pool)
    → leb limit 1 ≡ true
    → (not (k == id) || not (f == e)) ≡ true
    → IsHeld id e pool.runners
    → IsHeld id e (release_runner_by_id_if_experiment limit k f now pool).1.runners
unfolding release_runner_by_id_if_experiment
release_runner_by_id_if_experiment-IsHeld limit id e k f now pool single other h =
    let found = get_runner pool.runners k in
    subst
      (λ b.
        IsHeld id e
          (if b
            then write_row (mark_ready now) (holder f found) pool
            else write_row (recompute_runner_release pool.experiments f now) found pool).1.runners)
      (sym single) (by_id-IsHeld id e k f now pool found other refl h)

perform-IsHeld :
    (limit : ℕ) (id e : String) (call : PoolCall) (now : ℕ) (pool : Pool)
    → leb limit 1 ≡ true
    → spares id e call ≡ true
    → IsHeld id e pool.runners
    → IsHeld id e (perform limit call now pool).runners
unfolding perform allocate_runner_for_experiment allocate_specific_runner_for_experiment
    release_runner_if_assigned release_runner_by_id_if_experiment set_runner_ready check_health
perform-IsHeld limit id e (allocate locked f) now pool single other h =
    occupy-IsHeld id e f now (picked limit locked pool) pool
      (picked-other limit locked id e pool single h.1) h
perform-IsHeld limit id e (allocate_specific k f) now pool single other h =
    let found = get_runner pool.runners k in
    occupy-IsHeld id e f now (admitted limit pool.experiments found) pool
      (admitted-other limit id e pool found single
        (λ r p. (get_runner-All (λ x. is_kept id e x ≡ true) pool.runners k r h.1 p).0))
      h
perform-IsHeld limit id e (release_assigned f) now pool single other h =
    let held = keep (has_current f) pool.runners in
    subst
      (λ b.
        IsHeld id e
          (if b
            then free_current now (scalar_one_or_none held) pool
            else free_slot f now (scalar_one_or_none held) pool).1.runners)
      (sym single)
      (free_current-IsHeld id e f now held pool other
        (All-keep (λ r. is_kept id e r ≡ true) (has_current f) pool.runners h.1) h)
perform-IsHeld limit id e (release_by_id k f) now pool single other h =
    release_runner_by_id_if_experiment-IsHeld limit id e k f now pool single other h
perform-IsHeld limit id e (set_ready k) now pool single other h =
    ready-IsHeld id e k now pool (get_runner pool.runners k) (ground (arith, other)) refl h
perform-IsHeld limit id e (health k x) now pool single other h =
    check_found-IsHeld id e k x now pool (get_runner pool.runners k) refl h
perform-IsHeld limit id e (set_experiment f s) now pool single other h = h

-- With one experiment per runner, a runner that is there and holds an experiment holds it after any
-- sequence of allocations, releases, health checks and updates of experiments that does not release
-- this experiment from it, nor sets this runner ready.
pub perform_all-IsHeld :
    (limit : ℕ) (id e : String) (calls : List (PoolCall × ℕ)) (pool : Pool)
    → limit ≤ 1
    → All (λ call. spares id e call.0 ≡ true) calls
    → IsHeld id e pool.runners
    → IsHeld id e (perform_all limit calls pool).runners
unfolding perform_all
perform_all-IsHeld limit id e [] pool single others h = h
perform_all-IsHeld limit id e ((call, now) ∷ calls) pool single others h =
    perform_all-IsHeld limit id e calls (perform limit call now pool) single others.1
      (perform-IsHeld limit id e call now pool (ground (arith, single)) others.0 h)
