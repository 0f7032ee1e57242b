-- ===== src/Runners.antt =====
-- The pool of runners that experiments are dispatched to: the rows of the runners and of the
-- experiments, and what the statements of master_api/src/services/database_service.py select from
-- them. A list stands for the order in which the database returns the rows.
use gigaevo_platform.Prelude.{
  ℕ, zero, suc, ◌+◌, ◌-◌, ◌≤◌, ◌<◌, String, append_text, ◌≡◌, refl, sym, ap, ◌∙◌, ◌≢◌, ◌↔◌, ◌⊎◌,
  inl, inr, Bool, true, false, not, ◌&&◌, ◌||◌, Option, none, some, List, [], ◌∷◌, ◌++◌, map, arith,
  eq_iff, ltb, leb, if◌then◌else◌, Bool-cases, Option-cases, or_else, is_some, ◌>>=◌, get_or,
  length, take, drop, keep, All, All-mono, All-zip, All-append, All-keep,
}
use gigaevo_platform.Prelude.Eq.{Eq, ◌==◌, string_eq, nat_eq, beq_refl, contains}
use gigaevo_platform.Prelude.Dict.{Dict, get, put, get-put}
pub mod Allocate
pub mod Release
pub mod Health
pub mod Calls
pub mod Fair
pub mod Capacity
pub mod RoundTrip
pub mod Missing
pub mod Sweeps
pub mod Reconcile
pub mod Holding
pub mod Writes
pub mod Ownership
pub mod Limit
use gigaevo_platform.Experiments.{Experiment, is_active_status}

-- master_api/src/models/instance.py
pub data RunnerInstanceStatus : Type 0 where
  online offline initializing ready busy error terminating : RunnerInstanceStatus

pub record Runner : Type 0 where
  pub id : String
  pub endpoint_url : String
  pub status : RunnerInstanceStatus
  pub last_heartbeat : Option ℕ
  pub current_experiment_id : Option String

pub record Pool : Type 0 where
  pub runners : List Runner
  pub experiments : List Experiment

abbrev pub is_ready : RunnerInstanceStatus → Bool
is_ready s = elim s [ ready ↦ true | _ ↦ false ]

abbrev pub is_busy : RunnerInstanceStatus → Bool
is_busy s = elim s [ busy ↦ true | _ ↦ false ]

-- `current_experiment_id == experiment_id`, which no missing id satisfies.
abbrev pub is_text : String → Option String → Bool
is_text s none = false
is_text s (some t) = t == s

abbrev pub has_current : String → Runner → Bool
has_current e r = is_text e r.current_experiment_id

-- READY with no current experiment
abbrev pub is_free : Runner → Bool
is_free r = is_ready r.status && not (is_some r.current_experiment_id)

-- READY or BUSY
abbrev pub in_service : Runner → Bool
in_service r = is_ready r.status || is_busy r.status

-- `with_for_update(skip_locked=True)`: the rows that no other transaction has locked.
abbrev pub is_unlocked : List String → Runner → Bool
is_unlocked locked r = not (contains r.id locked)

unfoldable pub get_runner : List Runner → String → Option Runner
get_runner [] id = none
get_runner (r ∷ rs) id = let rest = get_runner rs id in if r.id == id then some r else rest

-- The row with a primary key, changed.
unfoldable pub update_runner : String → (Runner → Runner) → List Runner → List Runner
update_runner id f [] = []
update_runner id f (r ∷ rs) =
    let rest = update_runner id f rs in if r.id == id then f r ∷ rs else r ∷ rest

-- The first row of a `limit(1)`.
abbrev pub first_row : {A : Type 0} → List A → Option A
first_row [] = none
first_row (a ∷ rest) = some a

-- `_runner_concurrency_limit`, of the configured number
abbrev pub runner_concurrency_limit : ℕ → ℕ
runner_concurrency_limit n = if ltb n 1 then 1 else n

-- An experiment that occupies a slot of the runner, and is not the one left out.
abbrev pub occupies : String → Option String → Experiment → Bool
occupies runner_id excluded e =
    is_active_status e.status
    && not (is_text e.id excluded)
    && is_text runner_id e.assigned_runner_id

-- `_count_active_experiments_for_runner`
unfoldable pub count_active : List Experiment → String → Option String → ℕ
count_active [] runner_id excluded = 0
count_active (e ∷ es) runner_id excluded =
    let count = count_active es runner_id excluded in
    if occupies runner_id excluded e then count + 1 else count

-- `_first_active_experiment_for_runner`
unfoldable pub first_active : List Experiment → String → Option String → Option String
first_active [] runner_id excluded = none
first_active (e ∷ es) runner_id excluded =
    let later = first_active es runner_id excluded in
    if occupies runner_id excluded e then some e.id else later

-- `has_ready_runner_capacity`
abbrev pub some_below : List Experiment → ℕ → List Runner → Bool
some_below es limit [] = false
some_below es limit (r ∷ rs) =
    let later = some_below es limit rs in
    if in_service r && ltb (count_active es r.id none) limit then true else later

unfoldable pub has_ready_runner_capacity : ℕ → Pool → Bool
unfolding count_active
has_ready_runner_capacity limit pool =
    if leb limit 1
    then is_some (first_row (keep is_free pool.runners))
    else some_below pool.experiments limit pool.runners
