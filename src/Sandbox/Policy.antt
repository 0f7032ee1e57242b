-- ===== src/Sandbox/Policy.antt =====
-- The options that Docker reads from the arguments of a request, under each policy.
use gigaevo_platform.Prelude.{◌≡◌, refl, ap, ◌∙◌, false, Option, none, some, List, [], ◌∷◌, ◌++◌}
use gigaevo_platform.Prelude.Eq.{◌==◌, string_eq, nat_eq}
use gigaevo_platform.Prelude.Text.{Text, codes, text_eq}
use gigaevo_platform.Sandbox.{
  Numerals, NetworkPolicy, isolated, skill_declared, open_network, RunRequest,
}
use gigaevo_platform.Sandbox.Docker.{
  env_args, sorted_entries, with_proxy, rewrite_localhost_for_container, fixed_args, network_args,
  label_args, plain_env_args,
}
use gigaevo_platform.Sandbox.Reading.{
  DockerRun, is_option, read_docker, values, bare_run, add_flag, add_option, add_options,
  env_options, host_options, read_docker-env_args, read_docker-host_args, read_docker-command,
  add_options-some, values-append, values-env_options, values-host_options,
}

-- Docker's name for the network that a policy stands for.
abbrev pub mode : NetworkPolicy → Text
mode isolated = codes "none"
mode skill_declared = codes "bridge"
mode open_network = codes "bridge"

module _ ⦃N : Numerals⦄ where
  open N use {cpu_text, int_text}

  abbrev pub label_options : RunRequest → List (Text × Text)
  label_options req =
      (codes "--label", codes "gigaevo.skill_sha256=" ++ req.skill_sha256)
      ∷ (codes "--label", codes "gigaevo.skill_name=" ++ req.skill_name)
      ∷ (codes "--label", codes "gigaevo.kind=agent_skill")
      ∷ []

  abbrev pub plain_options : RunRequest → List (Text × Text)
  plain_options req = label_options req ++ env_options (sorted_entries req.env) ++ []

  abbrev proxy_env : RunRequest → Text → List (Text × Text)
  proxy_env req url = sorted_entries (with_proxy (rewrite_localhost_for_container url) req.env)

  -- The options behind the fixed ones.
  abbrev pub policy_options : RunRequest → NetworkPolicy → Option Text → List (Text × Text)
  policy_options req isolated url = (codes "--network", codes "none") ∷ plain_options req
  policy_options req skill_declared (some url) =
      (codes "--network", codes "bridge")
        ∷ (codes "--add-host", codes "host.docker.internal:host-gateway")
        ∷ env_options (proxy_env req url)
      ++ label_options req
  policy_options req skill_declared none =
      (codes "--network", codes "bridge")
        ∷ (codes "--dns", codes "127.0.0.1")
        ∷ host_options req.allowed_domains
      ++ plain_options req
  policy_options req open_network url = (codes "--network", codes "bridge") ∷ plain_options req

  abbrev pub rest_args : RunRequest → NetworkPolicy → Option Text → List Text
  rest_args req policy url =
      network_args req policy url
      ++ (label_args req ++ (plain_env_args req policy url ++ req.image ∷ req.command))

  abbrev pub with_options : RunRequest → List (Text × Text) → Option DockerRun
  with_options req options = some (record (bare_run req.image req.command) { options = options })

  read_docker-sentinels :
      (req : RunRequest) (tail : List Text)
      → read_docker (network_args req skill_declared none ++ tail)
        ≡ add_option (codes "--network") (codes "bridge") (
            add_option
              (codes "--dns")
              (codes "127.0.0.1")
              (add_options (host_options req.allowed_domains) (read_docker tail)))
  unfolding read_docker
  read_docker-sentinels req tail =
      ap
        (λ o.
          add_option (codes "--network") (codes "bridge")
            (add_option (codes "--dns") (codes "127.0.0.1") o))
        (read_docker-host_args req.allowed_domains tail)

  module _ (req : RunRequest) (image : is_option req.image ≡ false) where
    read_docker-plain :
        read_docker
          (label_args req ++ (env_args (sorted_entries req.env) ++ req.image ∷ req.command))
        ≡ with_options req (plain_options req)
    unfolding read_docker
    read_docker-plain = rw (
      read_docker-env_args (sorted_entries req.env) (req.image ∷ req.command),
      read_docker-command req.image req.command image,
      add_options-some (env_options (sorted_entries req.env)) (bare_run req.image req.command),
    )

    pub read_docker-rest :
        (policy : NetworkPolicy) (url : Option Text)
        → read_docker (rest_args req policy url) ≡ with_options req (policy_options req policy url)
    unfolding read_docker
    read_docker-rest isolated url =
        ap (add_option (codes "--network") (codes "none")) read_docker-plain
    read_docker-rest open_network url =
        ap (add_option (codes "--network") (codes "bridge")) read_docker-plain
    read_docker-rest skill_declared none =
        read_docker-sentinels req
          (label_args req ++ (plain_env_args req skill_declared none ++ req.image ∷ req.command))
        ∙ ap
            (λ o. add_option (codes "--network") (codes "bridge") (
              add_option (codes "--dns") (codes "127.0.0.1")
                (add_options (host_options req.allowed_domains) o)))
            read_docker-plain
        ∙ ap
            (λ o.
              add_option (codes "--network") (codes "bridge")
                (add_option (codes "--dns") (codes "127.0.0.1") o))
            (add_options-some (host_options req.allowed_domains)
              (record (bare_run req.image req.command) { options = plain_options req }))
    read_docker-rest skill_declared (some url) =
        ap
          (λ o.
            add_option (codes "--network") (codes "bridge")
              (add_option (codes "--add-host") (codes "host.docker.internal:host-gateway") o))
          (read_docker-env_args (proxy_env req url) (label_args req ++ req.image ∷ req.command)
            ∙ ap
                (λ o.
                  add_options (env_options (proxy_env req url)) (add_options (label_options req) o))
                (read_docker-command req.image req.command image)
            ∙ add_options-some (env_options (proxy_env req url))
                (record (bare_run req.image req.command) { options = label_options req }))

  -- The options that no policy adds.
  module _ (req : RunRequest) (k : Text) (e : (codes "--env" == k) ≡ false)
      (l : (codes "--label" == k) ≡ false) where
    pub values-plain : values k (plain_options req) ≡ []
    values-plain = rw (
      l,
      values-append k (env_options (sorted_entries req.env)) [],
      values-env_options k (sorted_entries req.env) e,
    )

    pub values-hosts :
        (codes "--add-host" == k) ≡ false
        → values k (host_options req.allowed_domains ++ plain_options req) ≡ []
    values-hosts a =
        values-append k (host_options req.allowed_domains) (plain_options req)
        ∙ ap (λ vs. vs ++ values k (plain_options req))
            (values-host_options k req.allowed_domains a)
        ∙ values-plain

    pub values-proxy :
        (url : Text) → values k (env_options (proxy_env req url) ++ label_options req) ≡ []
    values-proxy url =
        values-append k (env_options (proxy_env req url)) (label_options req)
        ∙ ap (λ vs. vs ++ values k (label_options req)) (values-env_options k (proxy_env req url) e)
        ∙ rw l

    pub values-settings :
        (policy : NetworkPolicy) (url : Option Text)
        → (codes "--network" == k) ≡ false
        → (codes "--dns" == k) ≡ false
        → (codes "--add-host" == k) ≡ false
        → values k (policy_options req policy url) ≡ []
    values-settings isolated url n d a = rw n values-plain
    values-settings open_network url n d a = rw n values-plain
    values-settings skill_declared none n d a = rw (n, d) (values-hosts a)
    values-settings skill_declared (some url) n d a = rw (n, a) (values-proxy url)

  pub values-network :
      (req : RunRequest) (policy : NetworkPolicy) (url : Option Text)
      → values (codes "--network") (policy_options req policy url) ≡ mode policy ∷ []
  values-network req isolated url =
      ap (λ vs. codes "none" ∷ vs) (values-plain req (codes "--network") refl refl)
  values-network req open_network url =
      ap (λ vs. codes "bridge" ∷ vs) (values-plain req (codes "--network") refl refl)
  values-network req skill_declared none =
      ap (λ vs. codes "bridge" ∷ vs) (values-hosts req (codes "--network") refl refl refl)
  values-network req skill_declared (some url) =
      ap (λ vs. codes "bridge" ∷ vs) (values-proxy req (codes "--network") refl refl url)

  abbrev pub fixed_options : RunRequest → List (Text × Text)
  fixed_options req =
      (codes "--tmpfs", codes "/tmp:rw,noexec,nosuid,size=64m")
      ∷ (codes "--cap-drop", codes "ALL")
      ∷ (codes "--security-opt", codes "no-new-privileges")
      ∷ (codes "--pids-limit", int_text req.pids_limit)
      ∷ (codes "--cpus", cpu_text req.cpu_limit)
      ∷ (codes "--memory", int_text req.memory_limit_mb ++ codes "m")
      ∷ (codes "--volume", req.workspace ++ codes ":/workspace:rw")
      ∷ (codes "--workdir", codes "/workspace")
      ∷ []

  abbrev pub fixed_part : RunRequest → Text → Option DockerRun → Option DockerRun
  fixed_part req name o = add_flag (codes "--rm") (
      add_option (codes "--name") name
        (add_flag (codes "--read-only") (add_options (fixed_options req) o)))

  pub read_docker-fixed :
      (req : RunRequest) (name : Text) (rest : List Text)
      → read_docker (fixed_args req name ++ rest) ≡ fixed_part req name (read_docker rest)
  unfolding read_docker
  read_docker-fixed req name rest = refl
