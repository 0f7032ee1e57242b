-- ===== src/TaskWorker/Handlers.antt =====
-- The handlers of runner_api/src/workers/task_worker.py, one for each type of task.
use text.Mathlib.Text.{find?}
use gigaevo_platform.Prelude.{
  ℕ, zero, suc, String, append_text, Bool, true, false, Option, none, some, leb, if◌then◌else◌,
  is_some, get_or,
}
use gigaevo_platform.Prelude.Eq.{string_eq, nat_eq}
use gigaevo_platform.Formats.{Formats}
use gigaevo_platform.Task.{
  completed, failed, terminated, cancelled, TaskType, clone_repo, generate_code, run_experiment,
  collect_results, run_agent_skill, Task, or_none,
}

-- What an awaited call gives: a value, or an exception with its text.
pub data Reply (A : Type 0) : Type 0 where
  returns : A → Reply A
  raises : String → Reply A

module _ ⦃F : Formats⦄ where
  open F use {Json, text_json, lower, str_nat, str_type}

  -- The dictionary that `GigaEvolveService.run_experiment` returns, as far as the handler reads it.
  pub record RunOutcome : Type 0 where
    pub timed_out : Bool
    pub success : Bool
    pub generation_limit_reached : Bool
    pub error : Option String
    pub payload : Json

  -- The dictionary that `SkillExecutor.execute` returns, as far as the handler reads it.
  pub record SkillOutcome : Type 0 where
    pub timed_out : Bool
    pub succeeded : Bool
    pub exit_code : String
    pub payload : Json

  pub data SkillReply : Type 0 where
    bad_payload refused : String → SkillReply
    skill_raises : String → SkillReply
    ran : SkillOutcome → SkillReply

  -- What the other services answer while the task runs. `iterations` is the count that the first
  -- readable report, or the lineages in Redis, give; an empty answer of a run is `none`.
  pub record Services : Type 0 where
    pub generated_code : Reply (Option String)
    pub run : Reply (Option RunOutcome)
    pub generations : Reply ℕ
    pub iterations : Option ℕ
    pub max_iterations : Option ℕ
    pub skill : SkillReply

  -- The exception handler of `_execute_task`.
  abbrev pub fail_with : Task → String → Task
  fail_with task text = record task { status = failed; error_message = some text }

  unfoldable pub handle_generate_code : Services → Task → Task
  handle_generate_code services task = elim services.generated_code [
    | raises text ↦ fail_with task text
    | returns code ↦ elim (or_none code) [
      | none ↦ fail_with task "Failed to generate code"
      | some text ↦ record task { status = completed; result = some (text_json "code" text) }
    ]
  ]

  -- `_check_iterations_completed`, from the count that it finds.
  unfoldable pub check_iterations_completed : Option ℕ → Option ℕ → Bool × Option ℕ
  check_iterations_completed none found = (true, none)
  check_iterations_completed (some expected) none = (false, none)
  check_iterations_completed (some expected) (some actual) = (leb expected actual, some actual)

  abbrev pub or_unknown : Option ℕ → String
  or_unknown none = "unknown"
  or_unknown (some n) = str_nat n

  -- `f"{max_iterations}" if max_iterations else "unlimited"`
  abbrev pub or_unlimited : Option ℕ → String
  or_unlimited none = "unlimited"
  or_unlimited (some zero) = "unlimited"
  or_unlimited (some (suc n)) = str_nat (suc n)

  unfoldable pub stopped_early : Option ℕ → Option ℕ → String
  stopped_early actual expected = append_text "Experiment stopped prematurely: completed " (
      append_text (or_unknown actual) (
        append_text " iterations (expected "
          (append_text (or_unlimited expected) "). Process may have been interrupted.")))

  -- `str(err_msg).lower().find("cancel") != -1`
  abbrev pub mentions_cancel : String → Bool
  mentions_cancel text = is_some (find? (lower text) "cancel")

  -- A run that ended with exit code 0.
  unfoldable pub handle_success : Services → RunOutcome → Task → Task
  unfolding check_iterations_completed stopped_early
  handle_success services run task =
      if run.generation_limit_reached
      then elim services.generations [
        | raises text ↦ fail_with task text
        | returns _ ↦ record task { status = completed; result = some run.payload }
      ]
      else let (is_complete, actual) =
          check_iterations_completed services.max_iterations services.iterations in
        if is_complete
        then record task { status = completed; result = some run.payload }
        else record task {
          status = failed;
          error_message = some (stopped_early actual services.max_iterations);
          result = some run.payload;
        }

  unfoldable pub handle_run_experiment : Services → Task → Task
  unfolding handle_success
  handle_run_experiment services task = elim services.run [
    | raises text ↦ fail_with task text
    | returns none ↦ fail_with task "No result"
    | returns (some run) ↦
        let message = get_or run.error "Unknown error" in
        if run.timed_out
        then record task { status = terminated; error_message = none; result = some run.payload }
        else if run.success
        then handle_success services run task
        else if mentions_cancel message
        then record task { status = cancelled; error_message = some message }
        else fail_with task message
  ]

  unfoldable pub handle_collect_results : Task → Task
  handle_collect_results task = record task {
    status = completed;
    result = some (text_json "info" "Results collection handled by analysis loop");
  }

  unfoldable pub handle_run_agent_skill : Services → Task → Task
  handle_run_agent_skill services task = elim services.skill [
    | bad_payload text ↦ fail_with task (append_text "Invalid RUN_AGENT_SKILL payload: " text)
    | refused text ↦ fail_with task (append_text "Sandbox refused to run: " text)
    | skill_raises text ↦ fail_with task text
    | ran result ↦
        if result.timed_out
        then record task {
          result = some result.payload;
          status = terminated;
          error_message = some (get_or (or_none task.error_message) "Skill execution timed out");
        }
        else if result.succeeded
        then record task { result = some result.payload; status = completed }
        else record task {
          result = some result.payload;
          status = failed;
          error_message = some (
              get_or (or_none task.error_message)
                (append_text "Skill exited with code " result.exit_code));
        }
  ]

  -- The dispatch on the task's type; an unknown type is an exception.
  unfoldable pub dispatch : TaskType → Services → Task → Task
  unfolding handle_generate_code handle_run_experiment handle_collect_results handle_run_agent_skill
  dispatch generate_code services task = handle_generate_code services task
  dispatch run_experiment services task = handle_run_experiment services task
  dispatch collect_results services task = handle_collect_results task
  dispatch run_agent_skill services task = handle_run_agent_skill services task
  dispatch clone_repo services task =
      fail_with task (append_text "Unknown task type: " (str_type "CLONE_REPO"))

  unfoldable pub handle : Services → Task → Task
  unfolding dispatch
  handle services task = dispatch task.task_type services task
