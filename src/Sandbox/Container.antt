-- ===== src/Sandbox/Container.antt =====
-- The container that the arguments of a request ask Docker for.
use gigaevo_platform.Prelude.{
  ◌≡◌, refl, sym, ap, ◌∙◌, false, Option, none, some, [], ◌∷◌, ◌++◌, drop, All, All-append,
}
use gigaevo_platform.Prelude.Eq.{◌==◌, string_eq, nat_eq}
use mathlib.Core.Path.{subst}
use gigaevo_platform.Prelude.Text.{Text, codes, text_eq}
use gigaevo_platform.Sandbox.{Numerals, RunRequest}
use gigaevo_platform.Sandbox.Docker.{build_docker_run_args, given, sorted_entries}
use gigaevo_platform.Sandbox.Reach.{
  resolver, known_hosts, environment, assignments, labels, values-dns, values-add_host, values-env,
  values-label,
}
use gigaevo_platform.Sandbox.Reading.{DockerRun, is_option, read_docker, values}
use gigaevo_platform.Sandbox.Policy.{
  mode, policy_options, rest_args, read_docker-rest, values-settings, values-network, fixed_part,
  read_docker-fixed, fixed_options,
}
use gigaevo_platform.Sandbox.Options.{IsKnown, policy_options-IsKnown, fixed_options-IsKnown}

module _ ⦃N : Numerals⦄ where
  open N use {cpu_text, int_text}

  -- The container that a request asks for: its image and command, a file system that it cannot write but
  -- for the workspace and a /tmp in memory, no capabilities, no new privileges, its limits, and one
  -- network, which is none if that is the policy; the names, the environment and the labels that it is
  -- given; and no option beyond those that are known.
  abbrev pub Contains : RunRequest → Text → Option Text → Option DockerRun → Type 0
  Contains req name url none = ⊥
  Contains req name url (some run) =
      (run.image ≡ req.image)
      × (run.command ≡ req.command)
      × (run.flags ≡ codes "--rm" ∷ codes "--read-only" ∷ [])
      × (values (codes "--name") run.options ≡ name ∷ [])
      × (values (codes "--workdir") run.options ≡ codes "/workspace" ∷ [])
      × (values (codes "--volume") run.options ≡ (req.workspace ++ codes ":/workspace:rw") ∷ [])
      × (values (codes "--tmpfs") run.options ≡ codes "/tmp:rw,noexec,nosuid,size=64m" ∷ [])
      × (values (codes "--security-opt") run.options ≡ codes "no-new-privileges" ∷ [])
      × (values (codes "--cap-drop") run.options ≡ codes "ALL" ∷ [])
      × (values (codes "--cap-add") run.options ≡ [])
      × (values (codes "--pids-limit") run.options ≡ int_text req.pids_limit ∷ [])
      × (values (codes "--cpus") run.options ≡ cpu_text req.cpu_limit ∷ [])
      × (values (codes "--memory") run.options ≡ (int_text req.memory_limit_mb ++ codes "m") ∷ [])
      × (values (codes "--network") run.options ≡ mode req.network ∷ [])
      × (values (codes "--dns") run.options ≡ resolver req.network url)
      × (values (codes "--add-host") run.options ≡ known_hosts req.network url req.allowed_domains)
      × (values (codes "--env") run.options
          ≡ assignments (sorted_entries (environment req.network url req.env)))
      × (values (codes "--label") run.options ≡ labels req)
      × All IsKnown run.options

  -- If the image does not start with a dash, what Docker reads from the arguments of a request is
  -- its image and its command, removed afterwards, on a file system that is read-only but for the
  -- workspace and a /tmp in memory of 64 MB with no execution, with all capabilities dropped and no
  -- new privileges, the limits of the request, one network, which is none under that policy and the
  -- bridge under the others, the names, environment and labels that the policy and the request give
  -- it, and no option beyond the fourteen that are listed, so no further mount, device or
  -- capability.
  pub build_docker_run_args-Contains :
      (req : RunRequest) (name : Text) (proxy_url : Option Text)
      → is_option req.image ≡ false
      → Contains req name
          (given proxy_url)
          (read_docker (drop 2 (build_docker_run_args req name proxy_url)))
  unfolding build_docker_run_args read_docker
  build_docker_run_args-Contains req name proxy_url image =
      let url = given proxy_url in
      let none_of : (k : Text)
          → (codes "--env" == k) ≡ false
          → (codes "--label" == k) ≡ false
          → (codes "--network" == k) ≡ false
          → (codes "--dns" == k) ≡ false
          → (codes "--add-host" == k) ≡ false
          → values k (policy_options req req.network url) ≡ [] =
        λ k e l. values-settings req k e l req.network url in
      subst (λ o. Contains req name url o)
        (sym (
          read_docker-fixed req name (rest_args req req.network url)
          ∙ ap (fixed_part req name) (read_docker-rest req image req.network url)))
        (
          refl,
          refl,
          refl,
          ap (λ vs. name ∷ vs) (none_of (codes "--name") refl refl refl refl refl),
          ap (λ vs. codes "/workspace" ∷ vs) (none_of (codes "--workdir") refl refl refl refl refl),
          ap (λ vs. (req.workspace ++ codes ":/workspace:rw") ∷ vs)
              (none_of (codes "--volume") refl refl refl refl refl),
          ap (λ vs. codes "/tmp:rw,noexec,nosuid,size=64m" ∷ vs)
              (none_of (codes "--tmpfs") refl refl refl refl refl),
          ap (λ vs. codes "no-new-privileges" ∷ vs)
              (none_of (codes "--security-opt") refl refl refl refl refl),
          ap (λ vs. codes "ALL" ∷ vs) (none_of (codes "--cap-drop") refl refl refl refl refl),
          none_of (codes "--cap-add") refl refl refl refl refl,
          ap (λ vs. int_text req.pids_limit ∷ vs)
              (none_of (codes "--pids-limit") refl refl refl refl refl),
          ap (λ vs. cpu_text req.cpu_limit ∷ vs)
              (none_of (codes "--cpus") refl refl refl refl refl),
          ap (λ vs. (int_text req.memory_limit_mb ++ codes "m") ∷ vs)
              (none_of (codes "--memory") refl refl refl refl refl),
          values-network req req.network url,
          values-dns req req.network url,
          values-add_host req req.network url,
          values-env req req.network url,
          values-label req req.network url,
          (
            refl,
            All-append IsKnown (fixed_options req) _ (fixed_options-IsKnown req)
                (policy_options-IsKnown req req.network url),
          ),
        )
