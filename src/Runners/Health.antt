-- ===== src/Runners/Health.antt =====
-- master_api/src/services/runner_instance_service.py: what the checks of the runners' health write.
-- An answer of a runner is whether it responds, and whether its repository is ready, if it says so.
use gigaevo_platform.Prelude.{
  ℕ, String, Bool, true, false, not, ◌||◌, Option, none, some, List, [], ◌∷◌, ◌++◌, if◌then◌else◌,
}
use gigaevo_platform.Prelude.Eq.{◌==◌, string_eq, nat_eq}
use gigaevo_platform.Runners.{
  Runner, RunnerInstanceStatus, online, offline, initializing, ready, busy, error, terminating,
  Pool, get_runner, update_runner,
}
use gigaevo_platform.Runners.Release.{mark_ready}

abbrev pub runner_status_value : RunnerInstanceStatus → String
runner_status_value online = "online"
runner_status_value offline = "offline"
runner_status_value initializing = "initializing"
runner_status_value ready = "ready"
runner_status_value busy = "busy"
runner_status_value error = "error"
runner_status_value terminating = "terminating"

abbrev pub same_status : RunnerInstanceStatus → RunnerInstanceStatus → Bool
same_status s t = runner_status_value s == runner_status_value t

-- The columns' defaults.
abbrev new_runner : String → String → Runner
new_runner id url = record {
  id = id;
  endpoint_url = url;
  status = offline;
  last_heartbeat = none;
  current_experiment_id = none;
}

abbrev pub set_url : String → Runner → Runner
set_url url r = record r { endpoint_url = url }

abbrev pub create_or_update :
    String → String → (Runner → Runner) → Option Runner → List Runner → List Runner
create_or_update id url f none rs = rs ++ (f (new_runner id url) ∷ [])
create_or_update id url f (some r) rs = update_runner id (λ x. set_url url (f x)) rs

-- `create_or_update_runner`; `f` sets the fields that the call names.
unfoldable pub create_or_update_runner :
    String → String → (Runner → Runner) → List Runner → List Runner
unfolding get_runner update_runner
create_or_update_runner id url f rs = create_or_update id url f (get_runner rs id) rs

abbrev pub update_known : String → (Runner → Runner) → Option Runner → List Runner → List Runner
update_known id f none rs = rs
update_known id f (some r) rs = create_or_update_runner id r.endpoint_url f rs

abbrev pub set_status : RunnerInstanceStatus → ℕ → Runner → Runner
set_status s now r = record r { status = s; last_heartbeat = some now }

-- `_update_instance_status`
unfoldable pub update_instance_status : String → RunnerInstanceStatus → ℕ → Pool → Pool
unfolding get_runner create_or_update_runner
update_instance_status id s now pool = record pool {
  runners = update_known id (set_status s now) (get_runner pool.runners id) pool.runners;
}

-- `_register_instance_in_db`
unfoldable pub register_instance_in_db : String → String → RunnerInstanceStatus → ℕ → Pool → Pool
unfolding create_or_update_runner
register_instance_in_db id url s now pool = record pool {
  runners = create_or_update_runner id url (set_status s now) pool.runners;
}

-- `release_experiment_from_instance`: the status first, then the experiment.
unfoldable pub release_experiment_from_instance : String → ℕ → Pool → Pool
unfolding get_runner create_or_update_runner update_instance_status
release_experiment_from_instance id now pool =
    let readied = update_instance_status id ready now pool in
    record readied {
      runners = update_known id (mark_ready now) (get_runner readied.runners id) readied.runners;
    }

-- `_derive_status_from_health`
abbrev pub derive_status_from_health : Option Bool → RunnerInstanceStatus
derive_status_from_health (some true) = ready
derive_status_from_health (some false) = initializing
derive_status_from_health none = online

pub record Health : Type 0 where
  pub responding : Bool
  pub repo_ready : Option Bool

-- The status to write for a runner that stands at a status, if any.
unfoldable pub health_status : Health → RunnerInstanceStatus → Option RunnerInstanceStatus
health_status h s =
    let derived = derive_status_from_health h.repo_ready in
    if not h.responding
    then if same_status s offline then none else some error
    else if same_status s busy || same_status s terminating || same_status s derived
    then none
    else some derived

abbrev pub write_status : String → ℕ → Option RunnerInstanceStatus → Pool → Pool
write_status id now none pool = pool
write_status id now (some s) pool = update_instance_status id s now pool

abbrev pub check_found : String → Health → ℕ → Option Runner → Pool → Pool
check_found id h now none pool = pool
check_found id h now (some r) pool = write_status id now (health_status h r.status) pool

-- The body of `_health_monitoring_loop` for one instance.
unfoldable pub check_health : String → Health → ℕ → Pool → Pool
unfolding get_runner health_status update_instance_status
check_health id h now pool = check_found id h now (get_runner pool.runners id) pool

-- One round of the loop: `None` is an instance whose check raised an exception.
unfoldable pub health_round : List (String × Option Health) → ℕ → Pool → Pool
unfolding check_health
health_round [] now pool = pool
health_round ((id, none) ∷ services) now pool = health_round services now pool
health_round ((id, some h) ∷ services) now pool =
    health_round services now (check_health id h now pool)
