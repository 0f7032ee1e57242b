-- ===== src/Sandbox/Docker.antt =====
-- runner_api/src/sandbox/docker_backend.py: the arguments of `docker run` for a request.
use gigaevo_platform.Prelude.{
  ℕ, zero, suc, ◌-◌, Bool, true, false, Option, none, some, List, [], ◌∷◌, ◌++◌, ltb, if◌then◌else◌,
  length,
}
use gigaevo_platform.Prelude.Eq.{◌==◌, string_eq, nat_eq}
use gigaevo_platform.Prelude.Text.{Text, codes, starts_with, text_eq}
use gigaevo_platform.Egress.Connect.{has_infix}
use gigaevo_platform.Sandbox.{
  Numerals, NetworkPolicy, isolated, skill_declared, open_network, RunRequest,
}

-- `s.replace(old, new)`; the number counts the characters of an occurrence that are still to be left out.
unfoldable replace_from : Text → Text → ℕ → Text → Text
replace_from old new n [] = []
replace_from old new (suc n) (c ∷ s) = replace_from old new n s
replace_from old new zero (c ∷ s) =
    let found = starts_with (c ∷ s) old in
    let rest = replace_from old new (if found then length old - 1 else 0) s in
    if found then new ++ rest else c ∷ rest

-- `_rewrite_localhost_for_container`
unfoldable pub rewrite_localhost_for_container : Text → Text
unfolding replace_from has_infix
rewrite_localhost_for_container url =
    if has_infix url (codes "//127.0.0.1:")
    then replace_from (codes "//127.0.0.1:") (codes "//host.docker.internal:") 0 url
    else if has_infix url (codes "//localhost:")
    then replace_from (codes "//localhost:") (codes "//host.docker.internal:") 0 url
    else url

-- `d.setdefault(key, value)`
abbrev pub setdefault : Text → Text → List (Text × Text) → List (Text × Text)
setdefault k v [] = (k, v) ∷ []
setdefault k v ((j, w) ∷ d) =
    let rest = setdefault k v d in if j == k then (j, w) ∷ d else (j, w) ∷ rest

-- The order of strings, and of pairs of them.
abbrev text_less : Text → Text → Bool
text_less s [] = false
text_less [] (d ∷ t) = true
text_less (c ∷ s) (d ∷ t) = let rest = text_less s t in if c == d then rest else ltb c d

abbrev entry_less : Text × Text → Text × Text → Bool
entry_less (j, v) (k, w) = if j == k then text_less v w else text_less j k

abbrev insert_entry : Text × Text → List (Text × Text) → List (Text × Text)
insert_entry e [] = e ∷ []
insert_entry e (f ∷ rest) =
    let later = insert_entry e rest in if entry_less f e then f ∷ later else e ∷ f ∷ rest

-- `sorted(env.items())`
unfoldable pub sorted_entries : List (Text × Text) → List (Text × Text)
sorted_entries [] = []
sorted_entries (e ∷ rest) = insert_entry e (sorted_entries rest)

abbrev pub env_args : List (Text × Text) → List Text
env_args [] = []
env_args ((k, v) ∷ rest) = codes "--env" ∷ (k ++ codes "=" ++ v) ∷ env_args rest

abbrev pub host_args : List Text → List Text
host_args [] = []
host_args (host ∷ hosts) = codes "--add-host" ∷ (host ++ codes ":127.0.0.1") ∷ host_args hosts

-- The environment that sends a client to the proxy, where the caller did not set it.
abbrev pub with_proxy : Text → List (Text × Text) → List (Text × Text)
with_proxy url env = setdefault (codes "NO_PROXY") (codes "localhost,127.0.0.1") (
    setdefault (codes "https_proxy") url (
      setdefault (codes "http_proxy") url
        (setdefault (codes "HTTPS_PROXY") url (setdefault (codes "HTTP_PROXY") url env))))

-- `if proxy_url`
abbrev pub given : Option Text → Option Text
given none = none
given (some []) = none
given (some (c ∷ url)) = some (c ∷ url)

module _ ⦃N : Numerals⦄ where
  open N use {cpu_text, int_text}

  abbrev pub fixed_args : RunRequest → Text → List Text
  fixed_args req name =
      codes "--rm"
      ∷ codes "--name"
      ∷ name
      ∷ codes "--read-only"
      ∷ codes "--tmpfs"
      ∷ codes "/tmp:rw,noexec,nosuid,size=64m"
      ∷ codes "--cap-drop"
      ∷ codes "ALL"
      ∷ codes "--security-opt"
      ∷ codes "no-new-privileges"
      ∷ codes "--pids-limit"
      ∷ int_text req.pids_limit
      ∷ codes "--cpus"
      ∷ cpu_text req.cpu_limit
      ∷ codes "--memory"
      ∷ (int_text req.memory_limit_mb ++ codes "m")
      ∷ codes "--volume"
      ∷ (req.workspace ++ codes ":/workspace:rw")
      ∷ codes "--workdir"
      ∷ codes "/workspace"
      ∷ []

  abbrev pub network_args : RunRequest → NetworkPolicy → Option Text → List Text
  network_args req isolated url = codes "--network" ∷ codes "none" ∷ []
  network_args req skill_declared (some url) =
      codes "--network"
      ∷ codes "bridge"
      ∷ codes "--add-host"
      ∷ codes "host.docker.internal:host-gateway"
      ∷ env_args (sorted_entries (with_proxy (rewrite_localhost_for_container url) req.env))
  network_args req skill_declared none =
      codes "--network"
      ∷ codes "bridge"
      ∷ codes "--dns"
      ∷ codes "127.0.0.1"
      ∷ host_args req.allowed_domains
  network_args req open_network url = codes "--network" ∷ codes "bridge" ∷ []

  abbrev pub label_args : RunRequest → List Text
  label_args req =
      codes "--label"
      ∷ (codes "gigaevo.skill_sha256=" ++ req.skill_sha256)
      ∷ codes "--label"
      ∷ (codes "gigaevo.skill_name=" ++ req.skill_name)
      ∷ codes "--label"
      ∷ codes "gigaevo.kind=agent_skill"
      ∷ []

  -- The environment, unless the network's arguments have it already.
  abbrev pub plain_env_args : RunRequest → NetworkPolicy → Option Text → List Text
  plain_env_args req skill_declared (some url) = []
  plain_env_args req _ _ = env_args (sorted_entries req.env)

  -- `build_docker_run_args`
  unfoldable pub build_docker_run_args : RunRequest → Text → Option Text → List Text
  unfolding rewrite_localhost_for_container sorted_entries
  build_docker_run_args req name proxy_url =
      codes "docker"
      ∷ codes "run"
      ∷ (fixed_args req name
          ++ (network_args req req.network (given proxy_url)
              ++ (label_args req
                  ++ (plain_env_args req req.network (given proxy_url)
                      ++ req.image ∷ req.command))))
