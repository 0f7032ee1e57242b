-- ===== src/Sandbox/Bounds.antt =====
-- The requests that the sandbox accepts.
use gigaevo_platform.Prelude.{
  ◌≤◌, ◌≡◌, sym, ap, true, false, Option, none, some, List, [], ◌∷◌, arith, length,
}
use gigaevo_platform.Prelude.Eq.{string_eq, nat_eq}
use mathlib.Core.Path.{subst}
use gigaevo_platform.Prelude.Text.{Text, text_eq}
use gigaevo_platform.Prelude.Result.{Result, ok, err}
use gigaevo_platform.Prelude.Ints.{is_positive}
use gigaevo_platform.Sandbox.{
  RequestError, NetworkPolicy, isolated, skill_declared, open_network, parse_policy, is_empty_list,
  needs_domains, Numerals, RunRequest, checked,
}
use gigaevo_platform.Sandbox.Executor.{
  as_failure, requested, invalid_policy, SandboxConfig, SkillExecutionRequest, build_run_request,
}

module _ ⦃N : Numerals⦄ where
  -- A skill that declares its network has domains.
  abbrev HasDomains : NetworkPolicy → List Text → Type 0
  HasDomains skill_declared hosts = 1 ≤ length hosts
  HasDomains _ hosts = Unit

  -- A request with a command, and with limits that are positive.
  abbrev pub IsBounded : RunRequest → Type 0
  IsBounded r =
      (1 ≤ length r.command)
      × (N.is_positive_cpu r.cpu_limit ≡ true)
      × (is_positive r.memory_limit_mb ≡ true)
      × (is_positive r.pids_limit ≡ true)
      × (is_positive r.timeout_seconds ≡ true)
      × HasDomains r.network r.allowed_domains

  domains_of :
      (policy : NetworkPolicy) (hosts : List Text)
      → needs_domains policy hosts ≡ false
      → HasDomains policy hosts
  domains_of isolated hosts h = tt
  domains_of open_network hosts h = tt
  domains_of skill_declared [] h = cc
  domains_of skill_declared (host ∷ hosts) h = omega arith

  length_of : (xs : List Text) → is_empty_list xs ≡ false → 1 ≤ length xs
  length_of [] h = cc
  length_of (x ∷ xs) h = omega arith

  checked-same : (r s : RunRequest) → checked r ≡ ok s → r ≡ s
  unfolding checked
  checked-same r s p = ground (arith, p)

  checked-IsBounded : (r s : RunRequest) → checked r ≡ ok s → IsBounded r
  unfolding checked
  checked-IsBounded r s p = (
    length_of r.command (ground (arith, p)),
    ground (arith, p),
    ground (arith, p),
    ground (arith, p),
    ground (arith, p),
    domains_of r.network r.allowed_domains (ground (arith, p)),
  )

  as_failure_ok :
      (o : Result RequestError RunRequest) (r : RunRequest) → as_failure o ≡ ok r → o ≡ ok r
  as_failure_ok (ok s) r p = cc
  as_failure_ok (err e) r p = cc

  parsed_ok :
      (config : SandboxConfig) (req : SkillExecutionRequest) (path : Text) (r : RunRequest)
      (policy : Option NetworkPolicy)
      → (elim policy [
        | none ↦ err invalid_policy
        | some q ↦ as_failure (checked (requested config req path q))
      ])
        ≡ ok r
      → IsBounded r × (r.command ≡ req.command)
  parsed_ok config req path r none p = cc
  parsed_ok config req path r (some q) p =
      let checks = as_failure_ok (checked (requested config req path q)) r p in
      let same = checked-same (requested config req path q) r checks in
      (
        subst IsBounded same (checked-IsBounded (requested config req path q) r checks),
        ap (λ x. x.command) (sym same),
      )

  pub build_run_request-ok :
      (config : SandboxConfig) (req : SkillExecutionRequest) (path : Text) (r : RunRequest)
      → build_run_request config req path ≡ ok r
      → IsBounded r × (r.command ≡ req.command)
  unfolding build_run_request
  build_run_request-ok config req path r p =
      parsed_ok config req path r (parse_policy req.network) p
