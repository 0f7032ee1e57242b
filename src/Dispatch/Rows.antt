-- ===== src/Dispatch/Rows.antt =====
-- The rows of runners and of experiments, under the writes of a start.
use gigaevo_platform.Prelude.{
  ℕ, ◌≤◌, String, ◌≡◌, refl, sym, ap, ◌∙◌, inl, inr, true, false, Option, none, some, List, [], ◌∷◌,
  arith, leb, if◌then◌else◌, All, Bool-cases,
}
use gigaevo_platform.Prelude.Eq.{◌==◌, string_eq, nat_eq, beq_refl}
use mathlib.Core.Path.{subst}
use gigaevo_platform.Prelude.{if-elim, is_some}
use gigaevo_platform.Experiments.{ExperimentStatus}
use gigaevo_platform.Experiments.{Experiment, get_experiment, update_where}
use gigaevo_platform.Runners.{Runner, Pool, is_free, has_current, get_runner, update_runner}
use gigaevo_platform.Runners.Allocate.{mark_busy}
use gigaevo_platform.Runners.Release.{mark_ready, release_runner_by_id_if_experiment}
use gigaevo_platform.Runners.Fair.{get_runner-update_runner}
use gigaevo_platform.Runners.RoundTrip.{touch, free-touch, update_runner-twice}
use gigaevo_platform.Dispatch.{set_status_row, fail_start}

-- No row of a runner has this experiment.
abbrev pub NoneHas : String → List Runner → Type 0
NoneHas e rs = All (λ r. has_current e r ≡ false) rs

abbrev pub status_of : Option Experiment → Option ExperimentStatus
status_of none = none
status_of (some x) = some x.status

pub is_some-update_where :
    (es : List Experiment) (e : String) (f : Experiment → Experiment)
    → ((x : Experiment) → (f x).id ≡ x.id)
    → is_some (get_experiment es e) ≡ true
    → is_some (get_experiment (update_where e f es) e) ≡ true
unfolding get_experiment update_where
is_some-update_where [] e f same h = cc
is_some-update_where (x ∷ es) e f same h =
    ground (arith, same x, h, is_some-update_where es e f same)

pub status_of-update_where :
    (es : List Experiment) (e : String) (s : ExperimentStatus) (now : ℕ)
    → is_some (get_experiment es e) ≡ true
    → status_of (get_experiment (update_where e (set_status_row s now) es) e) ≡ some s
unfolding get_experiment update_where
status_of-update_where [] e s now h = cc
status_of-update_where (x ∷ es) e s now h = elim (Bool-cases (x.id == e)) [
  | inl b ↦ rw (b, b)
  | inr b ↦
      rw (b, b)
        (status_of-update_where es e s now
          (subst (λ c. is_some (if c then some x else get_experiment es e) ≡ true) b h))
]

touch-NoneHas :
    (e k : String) (now : ℕ) (rs : List Runner)
    → NoneHas e rs
    → NoneHas e (update_runner k (touch now) rs)
unfolding update_runner
touch-NoneHas e k now [] h = tt
touch-NoneHas e k now (r ∷ rs) h =
    if-elim (NoneHas e) (r.id == k) (touch now r ∷ rs) (r ∷ update_runner k (touch now) rs) (λ b. h)
      (λ b. (h.0, touch-NoneHas e k now rs h.1))

pub busy-found :
    (e : String) (now : ℕ) (rs : List Runner) (x : Runner)
    → get_runner rs x.id ≡ some x
    → get_runner (update_runner x.id (mark_busy e now) rs) x.id ≡ some (mark_busy e now x)
busy-found e now rs x found =
    get_runner-update_runner rs x.id x.id (mark_busy e now) (λ y. refl) ∙ rw (beq_refl x.id, found)

-- The runner that is given back after it was occupied.
pub fail_start-NoneHas :
    (limit : ℕ) (e : String) (now : ℕ) (x : Runner) (rs : List Runner) (pool : Pool)
    → limit ≤ 1
    → is_free x ≡ true
    → get_runner rs x.id ≡ some x
    → NoneHas e rs
    → pool.runners ≡ update_runner x.id (mark_busy e now) rs
    → NoneHas e (fail_start limit x.id e now pool).1.runners
unfolding release_runner_by_id_if_experiment
fail_start-NoneHas limit e now x rs pool single free found none_has held =
    let one_each : leb limit 1 ≡ true = ground (arith, single) in
    let occupied : get_runner pool.runners x.id ≡ some (mark_busy e now x) =
      ap (λ s. get_runner s x.id) held ∙ busy-found e now rs x found in
    let released : (fail_start limit x.id e now pool).1.runners
        ≡ update_runner x.id (mark_ready now) pool.runners =
      rw (one_each, occupied, beq_refl e) in
    let twice =
      update_runner-twice x.id (mark_busy e now) (mark_ready now) (touch now) rs x (λ y. refl) found
        (free-touch e now now x free) in
    subst (NoneHas e) (sym (released ∙ ap (update_runner x.id (mark_ready now)) held ∙ twice))
      (touch-NoneHas e x.id now rs none_has)
