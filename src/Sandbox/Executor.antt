-- ===== src/Sandbox/Executor.antt =====
-- runner_api/src/services/skill_executor.py: one run of a skill. The host is the directories that it
-- has and the runs that were started. What is outside the code enters as `Outside`: the answers of the
-- Docker daemon and of the file system, the base64 decoder, `str.lower`, and what a run does.
use gigaevo_platform.Prelude.{
  String, Bool, Option, none, some, List, [], ◌∷◌, if◌then◌else◌, get_or,
}
use gigaevo_platform.Prelude.Eq.{◌==◌, string_eq, nat_eq}
use gigaevo_platform.Prelude.Text.{Text, codes, text_eq}
use gigaevo_platform.Prelude.Ints.{ℤ}
use gigaevo_platform.Prelude.Result.{Result, ok, err}
use gigaevo_platform.Sandbox.{
  Numerals, NetworkPolicy, parse_policy, RunRequest, RequestError, checked, RunResult, succeeded,
}

pub data Backend : Type 0 where
  docker local : Backend

abbrev pub Files : Type 0
Files = List (Text × Text)

abbrev pub Directories : Type 0
Directories = List (Text × Files)

abbrev pub directory : Directories → Text → Option Files
directory [] path = none
directory ((p, files) ∷ dirs) path =
    let rest = directory dirs path in if p == path then some files else rest

-- `shutil.rmtree(path, ignore_errors=True)`, taken to succeed.
abbrev pub rmtree : Text → Directories → Directories
rmtree path [] = []
rmtree path ((p, files) ∷ dirs) =
    let rest = rmtree path dirs in if p == path then rest else (p, files) ∷ rest

module _ ⦃N : Numerals⦄ where
  open N use {Cpu}

  pub record SandboxConfig : Type 0 where
    pub backend : String
    pub unsafe_local_allowed : Bool
    pub default_cpu_limit : Cpu
    pub default_memory_limit_mb : ℤ
    pub default_pids_limit : ℤ
    pub default_timeout_seconds : ℤ
    pub image : Text

  pub record SkillExecutionRequest : Type 0 where
    pub skill_sha256 : Text
    pub skill_name : Text
    pub skill_md_b64 : Text
    pub command : List Text
    pub env : List (Text × Text)
    pub cpu_limit : Option Cpu
    pub memory_limit_mb : Option ℤ
    pub pids_limit : Option ℤ
    pub timeout_seconds : Option ℤ
    pub network : String
    pub allowed_domains : Option (List Text)
    pub image : Option Text

  pub data SkillFailure : Type 0 where
    local_not_allowed docker_unreachable no_isolation unknown_mode : SkillFailure
    invalid_policy not_base64 not_materialised : SkillFailure
    invalid_request : RequestError → SkillFailure
    run_failed : Text → SkillFailure

  pub record Host : Type 0 where
    pub directories : Directories
    pub runs : List (Backend × RunRequest)

  pub record Outside : Type 0 where
    pub lower : String → String
    pub docker_available : Bool
    pub b64decode : Text → Option Text
    -- The name that `tempfile.mkdtemp` finds, and whether the files can be written there.
    pub new_directory : Text
    pub can_write : Bool
    pub run : Backend → RunRequest → Directories → Result Text RunResult × Directories

  -- `(self._config.backend or "auto").lower()`
  abbrev mode_of : Outside → SandboxConfig → String
  mode_of out config = out.lower (if config.backend == "" then "auto" else config.backend)

  unfoldable pub select_backend : Outside → SandboxConfig → Result SkillFailure Backend
  select_backend out config =
      if mode_of out config == "local"
      then if config.unsafe_local_allowed then ok local else err local_not_allowed
      else if mode_of out config == "docker"
      then if out.docker_available then ok docker else err docker_unreachable
      else if mode_of out config == "auto"
      then if out.docker_available
        then ok docker
        else if config.unsafe_local_allowed
        then ok local
        else err no_isolation
      else err unknown_mode

  -- `req.image or self._config.image`
  abbrev image_or : Option Text → Text → Text
  image_or none d = d
  image_or (some []) d = d
  image_or (some (c ∷ s)) d = c ∷ s

  abbrev pub as_failure : Result RequestError RunRequest → Result SkillFailure RunRequest
  as_failure (ok r) = ok r
  as_failure (err e) = err (invalid_request e)

  abbrev pub requested : SandboxConfig → SkillExecutionRequest → Text → NetworkPolicy → RunRequest
  requested config req workspace policy = record {
    skill_sha256 = req.skill_sha256;
    skill_name = req.skill_name;
    workspace = workspace;
    command = req.command;
    env = req.env;
    cpu_limit = get_or req.cpu_limit config.default_cpu_limit;
    memory_limit_mb = get_or req.memory_limit_mb config.default_memory_limit_mb;
    pids_limit = get_or req.pids_limit config.default_pids_limit;
    timeout_seconds = get_or req.timeout_seconds config.default_timeout_seconds;
    network = policy;
    allowed_domains = get_or req.allowed_domains [];
    image = image_or req.image config.image;
  }

  -- `_build_run_request`
  unfoldable pub build_run_request :
      SandboxConfig → SkillExecutionRequest → Text → Result SkillFailure RunRequest
  unfolding parse_policy checked
  build_run_request config req workspace = elim (parse_policy req.network) [
    | none ↦ err invalid_policy
    | some policy ↦ as_failure (checked (requested config req workspace policy))
  ]

  abbrev pub skill_files : Text → Files
  skill_files skill_md = (codes "SKILL.md", skill_md) ∷ (codes "out/", []) ∷ []

  abbrev pub with_directories : Host → Directories → Host
  with_directories host dirs = record host { directories = dirs }

  abbrev pub write_skill : Outside → Option Text → Host → Result SkillFailure Text × Host
  write_skill out none host = (err not_base64, host)
  write_skill out (some skill_md) host =
      let path = out.new_directory in
      if out.can_write
      then (ok path, with_directories host ((path, skill_files skill_md) ∷ host.directories))
      else (err not_materialised, with_directories host (rmtree path host.directories))

  -- `_materialise_workspace`
  unfoldable pub materialise_workspace :
      Outside → SkillExecutionRequest → Host → Result SkillFailure Text × Host
  materialise_workspace out req host = write_skill out (out.b64decode req.skill_md_b64) host

  -- What `_result_to_dict` keeps besides the result, and the workspace, if it is kept.
  pub record SkillPayload : Type 0 where
    pub result : RunResult
    pub succeeded : Bool
    pub workspace : Option Text

  abbrev payload_of : Bool → Text → RunResult → SkillPayload
  payload_of keep_workspace workspace r = record {
    result = r;
    succeeded = succeeded r;
    workspace = if keep_workspace then some workspace else none;
  }

  abbrev payload_or : Bool → Text → Result Text RunResult → Result SkillFailure SkillPayload
  payload_or keep_workspace workspace (ok r) = ok (payload_of keep_workspace workspace r)
  payload_or keep_workspace workspace (err text) = err (run_failed text)

  -- The call of the backend.
  abbrev pub run_on :
      Outside → Bool → Backend → RunRequest → Host → Result SkillFailure SkillPayload × Host
  run_on out keep_workspace backend r host =
      let (outcome, dirs) = out.run backend r host.directories in
      (
        payload_or keep_workspace r.workspace outcome,
        record { directories = dirs; runs = (backend, r) ∷ host.runs },
      )

  -- The `finally` clause.
  abbrev pub cleaned : Bool → Text → Host → Host
  cleaned keep_workspace path host =
      if keep_workspace then host else with_directories host (rmtree path host.directories)

  abbrev pub run_requested :
      Outside
      → Bool
      → Backend
      → Text
      → Result SkillFailure RunRequest
      → Host
      → Result SkillFailure SkillPayload × Host
  run_requested out keep_workspace backend path (err e) host =
      (err e, cleaned keep_workspace path host)
  run_requested out keep_workspace backend path (ok r) host =
      let (answer, after) = run_on out keep_workspace backend r host in
      (answer, cleaned keep_workspace path after)

  abbrev pub run_materialised :
      Outside
      → SandboxConfig
      → SkillExecutionRequest
      → Bool
      → Backend
      → Result SkillFailure Text × Host
      → Result SkillFailure SkillPayload × Host
  run_materialised out config req keep_workspace backend (err e, host) = (err e, host)
  run_materialised out config req keep_workspace backend (ok path, host) =
      run_requested out keep_workspace backend path (build_run_request config req path) host

  abbrev pub run_selected :
      Outside
      → SandboxConfig
      → SkillExecutionRequest
      → Bool
      → Result SkillFailure Backend
      → Host
      → Result SkillFailure SkillPayload × Host
  run_selected out config req keep_workspace (err e) host = (err e, host)
  run_selected out config req keep_workspace (ok backend) host =
      run_materialised out config req keep_workspace backend (materialise_workspace out req host)

  -- `execute`
  unfoldable pub execute :
      Outside
      → SandboxConfig
      → SkillExecutionRequest
      → Bool
      → Host
      → Result SkillFailure SkillPayload × Host
  unfolding select_backend materialise_workspace build_run_request
  execute out config req keep_workspace host =
      run_selected out config req keep_workspace (select_backend out config) host
