-- ===== src/Task.antt =====
-- runner_api/src/models/task.py, and the two conversions of
-- runner_api/src/services/task_repository.py between a task and its Redis hash.
pub mod RoundTrip
use gigaevo_platform.Prelude.{
  String, Bool, true, false, Option, none, some, List, [], ◌∷◌, if◌then◌else◌, or_else, get_or,
  ◌>>=◌,
}
use gigaevo_platform.Prelude.Eq.{◌==◌, string_eq}
use gigaevo_platform.Prelude.Dict.{Dict, get}
use gigaevo_platform.Formats.{Formats, Loaded}

pub data TaskStatus : Type 0 where
  queued running completed failed terminated cancelled : TaskStatus

pub data TaskType : Type 0 where
  clone_repo generate_code run_experiment collect_results run_agent_skill : TaskType

abbrev pub status_value : TaskStatus → String
status_value queued = "queued"
status_value running = "running"
status_value completed = "completed"
status_value failed = "failed"
status_value terminated = "terminated"
status_value cancelled = "cancelled"

-- `TaskStatus(text)`; `none` is the `ValueError`.
unfoldable pub parse_status : String → Option TaskStatus
parse_status s =
    if s == "queued"
    then some queued
    else if s == "running"
    then some running
    else if s == "completed"
    then some completed
    else if s == "failed"
    then some failed
    else if s == "terminated"
    then some terminated
    else if s == "cancelled"
    then some cancelled
    else none

abbrev pub type_value : TaskType → String
type_value clone_repo = "clone_repo"
type_value generate_code = "generate_code"
type_value run_experiment = "run_experiment"
type_value collect_results = "collect_results"
type_value run_agent_skill = "run_agent_skill"

-- `TaskType(text)`
unfoldable pub parse_type : String → Option TaskType
parse_type s =
    if s == "clone_repo"
    then some clone_repo
    else if s == "generate_code"
    then some generate_code
    else if s == "run_experiment"
    then some run_experiment
    else if s == "collect_results"
    then some collect_results
    else if s == "run_agent_skill"
    then some run_agent_skill
    else none

-- `text or None`
abbrev pub nonempty : String → Option String
nonempty s = if s == "" then none else some s

-- `data.get(f) or None`
abbrev pub or_none : Option String → Option String
or_none o = o >>= nonempty

module _ ⦃F : Formats⦄ where
  open F use {
    Json, empty_json, dumps, loads, Time, isoformat, fromisoformat, is_naive, with_utc, Float,
    zero_float, str_float, parse_float, Uuid, str_uuid, parse_uuid,
  }

  pub record Task : Type 0 where
    pub id : Uuid
    pub experiment_id : String
    pub task_type : TaskType
    pub status : TaskStatus
    pub parameters : Json
    pub result : Option Json
    pub error_message : Option String
    pub created_at : Time
    pub started_at : Option Time
    pub completed_at : Option Time
    pub worker_id : Option String
    pub progress : Float

  pub record TaskCreate : Type 0 where
    pub experiment_id : String
    pub task_type : TaskType
    pub parameters : Json

  pub record TaskUpdate : Type 0 where
    pub status : Option TaskStatus
    pub result : Option Json
    pub error_message : Option String
    pub progress : Option Float
    pub worker_id : Option String

  -- `Task(experiment_id=…, task_type=…, parameters=…)` with a fresh id, at the time `now`.
  unfoldable pub new_task : Uuid → Time → TaskCreate → Task
  new_task id now task = record {
    id = id;
    experiment_id = task.experiment_id;
    task_type = task.task_type;
    status = queued;
    parameters = task.parameters;
    result = none;
    error_message = none;
    created_at = now;
    started_at = none;
    completed_at = none;
    worker_id = none;
    progress = zero_float;
  }

  -- `t.isoformat() if t else ""`
  abbrev pub iso_or_empty : Option Time → String
  iso_or_empty none = ""
  iso_or_empty (some t) = isoformat t

  abbrev pub dumps_or_empty : Option Json → String
  dumps_or_empty none = ""
  dumps_or_empty (some j) = dumps j

  unfoldable pub task_to_hash : Task → Dict String
  task_to_hash task =
      ("id", str_uuid task.id)
      ∷ ("experiment_id", task.experiment_id)
      ∷ ("task_type", type_value task.task_type)
      ∷ ("status", status_value task.status)
      ∷ ("parameters", dumps task.parameters)
      ∷ ("result", dumps_or_empty task.result)
      ∷ ("error_message", get_or task.error_message "")
      ∷ ("created_at", isoformat task.created_at)
      ∷ ("started_at", iso_or_empty task.started_at)
      ∷ ("completed_at", iso_or_empty task.completed_at)
      ∷ ("worker_id", get_or task.worker_id "")
      ∷ ("progress", str_float task.progress)
      ∷ []

  abbrev pub as_aware : Time → Time
  as_aware t = if is_naive t then with_utc t else t

  -- The outer `none` is a raised `ValueError`.
  unfoldable pub parse_datetime : Option String → Option (Option Time)
  parse_datetime none = some none
  parse_datetime (some value) =
      if value == "" then some none else (do t ← fromisoformat value; some (some (as_aware t)))

  -- `json.loads` where the model wants an object; any other value is refused by the model.
  abbrev pub loaded_object : Loaded Json → Option Json
  loaded_object (Loaded.object j) = some j
  loaded_object _ = none

  -- `json.loads` where the model wants an object or null.
  abbrev pub loaded_optional : Loaded Json → Option (Option Json)
  loaded_optional (Loaded.object j) = some (some j)
  loaded_optional Loaded.null = some none
  loaded_optional _ = none

  -- `float(data.get("progress", 0.0))`
  abbrev pub read_progress : Option String → Option Float
  read_progress none = some zero_float
  read_progress (some text) = parse_float text

  -- The `try` block of `hash_to_task` over the fields of a hash; every exception gives `None`.
  unfoldable pub read_fields : Time → (String → Option String) → Option Task
  read_fields now field = do
    id_text ← field "id"
    id ← parse_uuid id_text
    experiment_id ← field "experiment_id"
    type_text ← field "task_type"
    task_type ← parse_type type_text
    status ← parse_status (get_or (field "status") "queued")
    parameters ← loaded_object (loads (get_or (or_none (field "parameters")) "{}"))
    result ← loaded_optional (loads (get_or (or_none (field "result")) "null"))
    created_at ← parse_datetime (field "created_at")
    started_at ← parse_datetime (field "started_at")
    completed_at ← parse_datetime (field "completed_at")
    progress ← read_progress (field "progress")
    some (record {
      id = id;
      experiment_id = experiment_id;
      task_type = task_type;
      status = status;
      parameters = parameters;
      result = result;
      error_message = or_none (field "error_message");
      created_at = get_or created_at now;
      started_at = started_at;
      completed_at = completed_at;
      worker_id = or_none (field "worker_id");
      progress = progress;
    })

  unfoldable pub hash_to_task : Time → Dict String → Option Task
  hash_to_task now [] = none
  hash_to_task now (entry ∷ d) = read_fields now (get (entry ∷ d))
