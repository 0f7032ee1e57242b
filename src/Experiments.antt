-- ===== src/Experiments.antt =====
-- master_api/src/services/database_service.py, the table of experiments and the statements that the
-- dispatching of experiments sends to it: each is one transaction. Of a row, the model keeps what
-- these statements and the pool of runners read or write; of its config, the assigned runner.
pub mod Claim
use gigaevo_platform.Prelude.{
  ℕ, ◌-◌, String, Bool, true, false, not, ◌&&◌, Option, none, some, List, [], ◌∷◌, map, ltb,
  if◌then◌else◌, is_some, length, keep,
}
use gigaevo_platform.Prelude.Eq.{◌==◌, string_eq, nat_eq, contains}

pub data ExperimentStatus : Type 0 where
  pending preparing prepared queued dispatching initializing deployed running : ExperimentStatus
  completed failed terminated preparation_failed cancelled : ExperimentStatus

-- `created_at` and the other times are numbers, of the database's clock.
pub record Experiment : Type 0 where
  pub id : String
  pub status : ExperimentStatus
  pub assigned_runner_id : Option String
  -- Whether the config has an `experiment_files_path` that is not empty.
  pub files_ready : Bool
  pub status_message : Option String
  pub created_at : ℕ
  pub updated_at : ℕ
  pub started_at : Option ℕ

abbrev pub is_queued : ExperimentStatus → Bool
is_queued s = elim s [ queued ↦ true | _ ↦ false ]

abbrev pub is_dispatching : ExperimentStatus → Bool
is_dispatching s = elim s [ dispatching ↦ true | _ ↦ false ]

-- `_RUNNER_ACTIVE_STATUSES`
abbrev pub is_active_status : ExperimentStatus → Bool
is_active_status s = elim s [
  | dispatching ↦ true
  | initializing ↦ true
  | running ↦ true
  | _ ↦ false
]

-- The row with a primary key.
unfoldable pub get_experiment : List Experiment → String → Option Experiment
get_experiment [] id = none
get_experiment (e ∷ es) id = let rest = get_experiment es id in if e.id == id then some e else rest

-- An update of the row with a primary key.
unfoldable pub update_where : String → (Experiment → Experiment) → List Experiment → List Experiment
update_where id f [] = []
update_where id f (e ∷ es) =
    let rest = update_where id f es in if e.id == id then f e ∷ es else e ∷ rest

-- `update_experiment_status`, with the answer whether a row was found.
unfoldable pub update_experiment_status :
    String → ExperimentStatus → ℕ → List Experiment → Bool × List Experiment
unfolding get_experiment update_where
update_experiment_status id s now es = (
  is_some (get_experiment es id),
  update_where id (λ e. record e { status = s; updated_at = now }) es,
)

-- The queued row with the earliest time of creation, of those that no other transaction has locked.
abbrev pub earlier : Experiment → Option Experiment → Option Experiment
earlier e none = some e
earlier e (some o) = if ltb o.created_at e.created_at then some o else some e

abbrev pub is_claimable : List String → Experiment → Bool
is_claimable locked e = is_queued e.status && not (contains e.id locked)

unfoldable pub oldest : List Experiment → Option Experiment
oldest [] = none
oldest (e ∷ es) = earlier e (oldest es)

abbrev pub dispatch_row : ℕ → Experiment → Experiment
dispatch_row now e = record e {
  status = dispatching;
  status_message = some "Dispatching to runner...";
  updated_at = now;
}

abbrev pub claim_row : ℕ → Option Experiment → List Experiment → Option Experiment × List Experiment
claim_row now none es = (none, es)
claim_row now (some e) es = (some (dispatch_row now e), update_where e.id (dispatch_row now) es)

-- `claim_next_queued_for_dispatching`
unfoldable pub claim_next_queued_for_dispatching :
    List String → ℕ → List Experiment → Option Experiment × List Experiment
unfolding oldest update_where
claim_next_queued_for_dispatching locked now es =
    claim_row now (oldest (keep (is_claimable locked) es)) es

-- A row that has stayed in DISPATCHING since before the threshold.
abbrev pub is_stale : ℕ → Experiment → Bool
is_stale threshold e = is_dispatching e.status && ltb e.updated_at threshold

abbrev pub requeue_row : Experiment → Experiment
requeue_row e = record e {
  status = queued;
  status_message = some "Retrying dispatch (previous attempt timed out)";
}

abbrev requeue_if_stale : ℕ → ℕ → Experiment → Experiment
requeue_if_stale threshold now e =
    if is_stale threshold e then record (requeue_row e) { updated_at = now } else e

-- `recover_stale_dispatching`, with the number of rows that it changed; the column `updated_at` is set
-- by every update.
unfoldable pub recover_stale_dispatching : ℕ → ℕ → List Experiment → ℕ × List Experiment
recover_stale_dispatching ttl_seconds now es =
    let asked = (if ttl_seconds == 0 then 60 else ttl_seconds) in
    let ttl = (if ltb asked 10 then 10 else asked) in
    (length (keep (is_stale (now - ttl)) es), map (requeue_if_stale (now - ttl) now) es)
