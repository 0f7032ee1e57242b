-- ===== src/Sandbox.antt =====
-- runner_api/src/sandbox/protocol.py: what a sandbox is asked to run, and what it reports.
use gigaevo_platform.Prelude.{
  ℕ, zero, suc, ◌+◌, ◌-◌, ◌≤◌, ◌<◌, String, append_text, ◌≡◌, refl, sym, ap, ◌∙◌, ◌≢◌, ◌↔◌, ◌⊎◌,
  inl, inr, Bool, true, false, not, ◌&&◌, ◌||◌, Option, none, some, List, [], ◌∷◌, ◌++◌, map, arith,
  eq_iff, ltb, leb, if◌then◌else◌, Bool-cases, Option-cases, or_else, is_some, ◌>>=◌, get_or,
  length, take, drop, keep, All, All-mono, All-zip, All-append, All-keep,
}
use gigaevo_platform.Prelude.Eq.{Eq, ◌==◌, string_eq, nat_eq, beq_refl, contains}
use gigaevo_platform.Prelude.Dict.{Dict, get, put, get-put}
use gigaevo_platform.Prelude.Text.{Text, text_eq}
use gigaevo_platform.Prelude.Ints.{ℤ, is_positive}
use gigaevo_platform.Prelude.Result.{Result, ok, err}
pub mod Docker
pub mod Reading
pub mod Policy
pub mod Options
pub mod Reach
pub mod Container
pub mod Executor
pub mod Bounds
pub mod Isolation

-- `float`, as the number of CPUs, and the printed forms of numbers.
pub record Numerals : Type 1 where
  pub Cpu : Type 0
  pub is_positive_cpu : Cpu → Bool
  pub cpu_text : Cpu → Text
  pub int_text : ℤ → Text

pub data NetworkPolicy : Type 0 where
  isolated skill_declared open_network : NetworkPolicy

-- `NetworkPolicy(text)`, which raises `ValueError` on other texts.
unfoldable pub parse_policy : String → Option NetworkPolicy
parse_policy s =
    if s == "none"
    then some isolated
    else if s == "skill_declared"
    then some skill_declared
    else if s == "open"
    then some open_network
    else none

module _ ⦃N : Numerals⦄ where
  open N use {Cpu, is_positive_cpu}

  pub record RunRequest : Type 0 where
    pub skill_sha256 : Text
    pub skill_name : Text
    pub workspace : Text
    pub command : List Text
    pub env : List (Text × Text)
    pub cpu_limit : Cpu
    pub memory_limit_mb : ℤ
    pub pids_limit : ℤ
    pub timeout_seconds : ℤ
    pub network : NetworkPolicy
    pub allowed_domains : List Text
    pub image : Text

  pub data RequestError : Type 0 where
    no_command no_cpu no_memory no_pids no_time no_domains : RequestError

  abbrev pub is_empty_list : {A : Type 0} → List A → Bool
  is_empty_list [] = true
  is_empty_list (a ∷ rest) = false

  abbrev pub needs_domains : NetworkPolicy → List Text → Bool
  needs_domains skill_declared hosts = is_empty_list hosts
  needs_domains _ hosts = false

  -- `__post_init__`: the request, if it is accepted.
  unfoldable pub checked : RunRequest → Result RequestError RunRequest
  checked req =
      if is_empty_list req.command
      then err no_command
      else if not (is_positive_cpu req.cpu_limit)
      then err no_cpu
      else if not (is_positive req.memory_limit_mb)
      then err no_memory
      else if not (is_positive req.pids_limit)
      then err no_pids
      else if not (is_positive req.timeout_seconds)
      then err no_time
      else if needs_domains req.network req.allowed_domains
      then err no_domains
      else ok req

  pub record RunResult : Type 0 where
    pub exit_code : ℤ
    pub stdout : Text
    pub stderr : Text
    pub timed_out : Bool
    pub container_name : Option Text
    pub backend : Text

  abbrev is_zero : ℤ → Bool
  is_zero (ℤ.pos zero) = true
  is_zero _ = false

  -- `RunResult.succeeded`
  abbrev pub succeeded : RunResult → Bool
  succeeded r = is_zero r.exit_code && not r.timed_out
