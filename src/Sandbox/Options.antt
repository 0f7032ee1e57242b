-- ===== src/Sandbox/Options.antt =====
-- The names of all options that Docker reads from the arguments of a request.
use gigaevo_platform.Prelude.{◌≡◌, refl, true, Option, none, some, List, [], ◌∷◌, All, All-append}
use gigaevo_platform.Prelude.Eq.{string_eq, nat_eq, contains}
use gigaevo_platform.Prelude.Text.{Text, codes, text_eq}
use gigaevo_platform.Sandbox.{
  Numerals, NetworkPolicy, isolated, skill_declared, open_network, RunRequest,
}
use gigaevo_platform.Sandbox.Docker.{sorted_entries, with_proxy, rewrite_localhost_for_container}
use gigaevo_platform.Sandbox.Reading.{env_options, host_options}
use gigaevo_platform.Sandbox.Policy.{policy_options, fixed_options}

-- None of these gives the container a further mount, a device, a capability or more rights.
abbrev pub known_options : List Text
known_options =
    codes "--name"
    ∷ codes "--tmpfs"
    ∷ codes "--cap-drop"
    ∷ codes "--security-opt"
    ∷ codes "--pids-limit"
    ∷ codes "--cpus"
    ∷ codes "--memory"
    ∷ codes "--volume"
    ∷ codes "--workdir"
    ∷ codes "--network"
    ∷ codes "--add-host"
    ∷ codes "--dns"
    ∷ codes "--env"
    ∷ codes "--label"
    ∷ []

abbrev pub IsKnown : Text × Text → Type 0
IsKnown option = contains option.0 known_options ≡ true

env_options-IsKnown : (env : List (Text × Text)) → All IsKnown (env_options env)
env_options-IsKnown [] = tt
env_options-IsKnown ((k, v) ∷ env) = (refl, env_options-IsKnown env)

host_options-IsKnown : (hosts : List Text) → All IsKnown (host_options hosts)
host_options-IsKnown [] = tt
host_options-IsKnown (host ∷ hosts) = (refl, host_options-IsKnown hosts)

module _ ⦃N : Numerals⦄ where
  plain_options-IsKnown : (req : RunRequest) → All IsKnown (policy_options req open_network none)
  plain_options-IsKnown req = (
    refl,
    (
      refl,
      (
        refl,
        (
          refl,
          All-append IsKnown (env_options (sorted_entries req.env)) [] (env_options-IsKnown _) tt,
        ),
      ),
    ),
  )

  pub policy_options-IsKnown :
      (req : RunRequest) (policy : NetworkPolicy) (url : Option Text)
      → All IsKnown (policy_options req policy url)
  policy_options-IsKnown req isolated url = (refl, (plain_options-IsKnown req).1)
  policy_options-IsKnown req open_network url = plain_options-IsKnown req
  policy_options-IsKnown req skill_declared none = (
    refl,
    (
      refl,
      All-append IsKnown (host_options req.allowed_domains) _
          (host_options-IsKnown req.allowed_domains) (plain_options-IsKnown req).1,
    ),
  )
  policy_options-IsKnown req skill_declared (some url) =
      let env = sorted_entries (with_proxy (rewrite_localhost_for_container url) req.env) in
      (
        refl,
        (
          refl,
          All-append IsKnown (env_options env) _ (env_options-IsKnown env)
              (refl, (refl, (refl, tt))),
        ),
      )

  pub fixed_options-IsKnown : (req : RunRequest) → All IsKnown (fixed_options req)
  fixed_options-IsKnown req = (refl, (refl, (refl, (refl, (refl, (refl, (refl, (refl, tt))))))))
