-- ===== src/Dispatch/Settled.antt =====
-- What a start leaves behind, with one experiment per runner.
use gigaevo_platform.Prelude.{
  ℕ, ◌≤◌, String, ◌≡◌, refl, sym, ap, ◌⊎◌, inl, inr, Bool, true, false, not, ◌&&◌, ◌||◌, Option,
  none, some, List, arith, ltb, leb, if◌then◌else◌,
}
use gigaevo_platform.Prelude.Eq.{◌==◌, string_eq, nat_eq}
use mathlib.Core.Path.{subst}
use gigaevo_platform.Prelude.{if-elim, is_some}
use gigaevo_platform.Experiments.{
  is_queued, is_dispatching, Experiment, preparing, running, get_experiment, update_where,
}
use gigaevo_platform.Runners.{
  Runner, Pool, is_free, has_current, get_runner, in_service, count_active,
}
use gigaevo_platform.Runners.Allocate.{
  mark_busy, occupy, picked, admitted, allocate_runner_for_experiment,
  allocate_specific_runner_for_experiment, assign,
}
use gigaevo_platform.Runners.Release.{nonempty_id}
use gigaevo_platform.Runners.Fair.{admitted-admits}
use gigaevo_platform.Runners.Holding.{get_runner-All}
use gigaevo_platform.Runners.RoundTrip.{IsKeyed, picked-free}
use gigaevo_platform.Dispatch.{
  set_status_row, is_preparation_failed, is_unstartable, initializing_row, PostReply, StartResult,
  result, post_with_retry, set_status_of, fail_start, run_on_runner, allocated, refused,
  start_checked, start_found, start_experiment_forward,
}
use gigaevo_platform.Dispatch.Rows.{
  NoneHas, status_of, is_some-update_where, status_of-update_where, busy-found, fail_start-NoneHas,
}

-- The result of a start: with status 200 the experiment is RUNNING, and a runner that was free has it;
-- with any other, no runner has it.
abbrev pub IsSettled : String → Pool → StartResult × Pool → Type 0
IsSettled e pool (res, after) =
    ((res.http_status ≡ 200)
      × (status_of (get_experiment after.experiments e) ≡ some running)
      × ((x : Runner) × (is_free x ≡ true)
          × (get_runner pool.runners x.id ≡ some x)
          × ((now : ℕ) × (get_runner after.runners x.id ≡ some (mark_busy e now x)))))
    ⊎ (((res.http_status == 200) ≡ false) × NoneHas e after.runners)

-- The runner that an allocation finds is free, and the one its key finds.
abbrev IsAvailable : Pool → Option Runner → Type 0
IsAvailable pool found =
    (x : Runner) → found ≡ some x → (is_free x ≡ true) × (get_runner pool.runners x.id ≡ some x)

-- An answer that is not status 200, if there is one.
abbrev IsRefusal : Option StartResult → Type 0
IsRefusal none = Unit
IsRefusal (some answer) = (answer.http_status == 200) ≡ false

refused-IsRefusal : (from_scheduler : Bool) (x : Experiment) → IsRefusal (refused from_scheduler x)
refused-IsRefusal from_scheduler x =
    let conflict : Option StartResult = some (result false 409) in
    let waits : Option StartResult = some (result true 202) in
    let unready = not x.files_ready || is_preparation_failed x.status in
    let waiting = not from_scheduler && (is_queued x.status || is_dispatching x.status) in
    let last = (if is_unstartable x.status then conflict else none) in
    if-elim IsRefusal unready conflict (if waiting then waits else last) (λ b. refl)
      (λ b.
        if-elim IsRefusal waiting waits last (λ c. refl)
          (λ c. if-elim IsRefusal (is_unstartable x.status) conflict none (λ d. refl) (λ d. tt)))

module _ (limit : ℕ) (e : String) (now : ℕ) (init start : ℕ → PostReply) (pool : Pool)
    (single : limit ≤ 1) (none_has : NoneHas e pool.runners) where
  run_on_runner-IsSettled :
      (found : Option Runner)
      → IsAvailable pool found
      → is_some (get_experiment pool.experiments e) ≡ true
      → IsSettled e pool (run_on_runner limit e now init start (occupy e now found pool))
  run_on_runner-IsSettled none available exists = inr (refl, none_has)
  run_on_runner-IsSettled (some x) available exists =
      let (free, known) = available x refl in
      let held = (occupy e now (some x) pool).1 in
      let begun : Pool = record held {
        experiments = update_where e (initializing_row now) held.experiments;
      } in
      let prepared = set_status_of e preparing now begun in
      let fails : (p : Pool)
          → p.runners ≡ held.runners
          → IsSettled e pool (fail_start limit x.id e now p) =
        λ p same.
          inr (
            refl,
            fail_start-NoneHas limit e now x pool.runners p single free known none_has same,
          ) in
      let done : StartResult × Pool = (result true 200, set_status_of e running now prepared) in
      if-elim (IsSettled e pool) (post_with_retry 3 1 init)
        (if post_with_retry 3 1 start then done else fail_start limit x.id e now prepared)
        (fail_start limit x.id e now begun)
        (λ b.
          if-elim (IsSettled e pool) (post_with_retry 3 1 start) done
            (fail_start limit x.id e now prepared)
            (λ c. inl (
              refl,
              status_of-update_where prepared.experiments e running now (
                  is_some-update_where begun.experiments e (set_status_row preparing now)
                    (λ y. refl)
                    (is_some-update_where held.experiments e (initializing_row now) (λ y. refl)
                      (is_some-update_where pool.experiments e (assign x.id now) (λ y. refl)
                        exists))),
              (x, free, known, (now, busy-found e now pool.runners x known)),
            ))
            (λ c. fails prepared refl))
        (λ b. fails begun refl)

  admitted-IsAvailable :
      (id : String)
      → IsAvailable pool (admitted limit pool.experiments (get_runner pool.runners id))
  admitted-IsAvailable id x p =
      let one_each : leb limit 1 ≡ true = ground (arith, single) in
      let (found, admits_it) =
        admitted-admits limit pool.experiments (get_runner pool.runners id) x p in
      let named =
        (get_runner-All (λ r. has_current e r ≡ false) pool.runners id x none_has found).1 in
      (
        subst
            (λ b.
              (if b
                then is_free x
                else in_service x && ltb (count_active pool.experiments x.id none) limit)
              ≡ true)
            one_each admits_it,
        subst (λ i. get_runner pool.runners i ≡ some x) (sym named) found,
      )

  allocated-IsSettled :
      (locked : List String) (instance_id : Option String)
      → IsKeyed pool.runners
      → is_some (get_experiment pool.experiments e) ≡ true
      → IsSettled e pool
          (run_on_runner limit e now init start (allocated limit locked e instance_id now pool))
  unfolding allocate_runner_for_experiment allocate_specific_runner_for_experiment
  allocated-IsSettled locked none keyed exists =
      run_on_runner-IsSettled (picked limit locked pool)
        (picked-free limit locked pool single keyed) exists
  allocated-IsSettled locked (some id) keyed exists =
      run_on_runner-IsSettled (admitted limit pool.experiments (get_runner pool.runners id))
        (admitted-IsAvailable id) exists

  refused-IsSettled :
      (from_scheduler : Bool) (x : Experiment) (answer : StartResult)
      → refused from_scheduler x ≡ some answer
      → (answer.http_status == 200) ≡ false
  refused-IsSettled from_scheduler x answer p =
      subst IsRefusal p (refused-IsRefusal from_scheduler x)

  start_checked-IsSettled :
      (locked : List String) (instance_id : Option String) (answer : Option StartResult)
      → IsKeyed pool.runners
      → ((a : StartResult) → answer ≡ some a → (a.http_status == 200) ≡ false)
      → is_some (get_experiment pool.experiments e) ≡ true
      → IsSettled e pool (start_checked limit locked e instance_id now init start answer pool)
  start_checked-IsSettled locked instance_id (some a) keyed other exists =
      inr (other a refl, none_has)
  start_checked-IsSettled locked instance_id none keyed other exists =
      allocated-IsSettled locked (nonempty_id instance_id) keyed exists

  start_found-IsSettled :
      (locked : List String) (instance_id : Option String) (from_scheduler : Bool)
      (found : Option Experiment)
      → IsKeyed pool.runners
      → get_experiment pool.experiments e ≡ found
      → IsSettled e pool
          (start_found limit locked e instance_id from_scheduler now init start found pool)
  start_found-IsSettled locked instance_id from_scheduler none keyed p = inr (refl, none_has)
  start_found-IsSettled locked instance_id from_scheduler (some x) keyed p =
      start_checked-IsSettled locked instance_id (refused from_scheduler x) keyed
        (refused-IsSettled from_scheduler x) (ap is_some p)

  -- With one experiment per runner, rows of runners that their keys find, and no runner that has
  -- the experiment, whatever the runner answers: a start ends with status 200, the experiment is
  -- RUNNING, and a runner that was free is BUSY with it; or it ends with another status, and no
  -- runner has the experiment.
  pub start_experiment_forward-IsSettled :
      (locked : List String) (instance_id : Option String) (from_scheduler : Bool)
      → IsKeyed pool.runners
      → IsSettled e pool
          (start_experiment_forward limit locked e instance_id from_scheduler now init start pool)
  unfolding start_experiment_forward
  start_experiment_forward-IsSettled locked instance_id from_scheduler keyed =
      start_found-IsSettled locked instance_id from_scheduler (get_experiment pool.experiments e)
        keyed refl
