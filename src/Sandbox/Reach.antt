-- ===== src/Sandbox/Reach.antt =====
-- What a container can reach and what it is told: the options for names, labels and the environment.
use gigaevo_platform.Prelude.{◌≡◌, refl, ap, ◌∙◌, Option, none, some, List, [], ◌∷◌, ◌++◌}
use gigaevo_platform.Prelude.Eq.{string_eq, nat_eq}
use gigaevo_platform.Prelude.Text.{Text, codes, text_eq}
use gigaevo_platform.Sandbox.{
  Numerals, NetworkPolicy, isolated, skill_declared, open_network, RunRequest,
}
use gigaevo_platform.Sandbox.Docker.{sorted_entries, with_proxy, rewrite_localhost_for_container}
use gigaevo_platform.Sandbox.Reading.{
  values, env_options, host_options, values-append, values-env_options, values-host_options,
}
use gigaevo_platform.Sandbox.Policy.{
  policy_options, plain_options, label_options, values-plain, values-hosts, values-proxy,
}

-- The names that Docker is to resolve to the loopback address.
abbrev pub loopbacks : List Text → List Text
loopbacks [] = []
loopbacks (host ∷ hosts) = (host ++ codes ":127.0.0.1") ∷ loopbacks hosts

abbrev pub assignments : List (Text × Text) → List Text
assignments [] = []
assignments ((k, v) ∷ env) = (k ++ codes "=" ++ v) ∷ assignments env

abbrev pub resolver : NetworkPolicy → Option Text → List Text
resolver skill_declared none = codes "127.0.0.1" ∷ []
resolver _ _ = []

abbrev pub known_hosts : NetworkPolicy → Option Text → List Text → List Text
known_hosts skill_declared none hosts = loopbacks hosts
known_hosts skill_declared (some url) hosts = codes "host.docker.internal:host-gateway" ∷ []
known_hosts _ _ hosts = []

-- The environment that was asked for, with the proxy's under the policy that has one.
abbrev pub environment : NetworkPolicy → Option Text → List (Text × Text) → List (Text × Text)
environment skill_declared (some url) env = with_proxy (rewrite_localhost_for_container url) env
environment _ _ env = env

values-loopbacks :
    (hosts : List Text) → values (codes "--add-host") (host_options hosts) ≡ loopbacks hosts
values-loopbacks [] = refl
values-loopbacks (host ∷ hosts) =
    ap (λ vs. (host ++ codes ":127.0.0.1") ∷ vs) (values-loopbacks hosts)

values-assignments :
    (env : List (Text × Text)) → values (codes "--env") (env_options env) ≡ assignments env
values-assignments [] = refl
values-assignments ((k, v) ∷ env) = ap (λ vs. (k ++ codes "=" ++ v) ∷ vs) (values-assignments env)

append_nil : (xs : List Text) → xs ++ [] ≡ xs
append_nil [] = refl
append_nil (x ∷ xs) = ap (λ ys. x ∷ ys) (append_nil xs)

module _ ⦃N : Numerals⦄ where
  abbrev pub labels : RunRequest → List Text
  labels req =
      (codes "gigaevo.skill_sha256=" ++ req.skill_sha256)
      ∷ (codes "gigaevo.skill_name=" ++ req.skill_name)
      ∷ codes "gigaevo.kind=agent_skill"
      ∷ []

  pub values-dns :
      (req : RunRequest) (policy : NetworkPolicy) (url : Option Text)
      → values (codes "--dns") (policy_options req policy url) ≡ resolver policy url
  values-dns req isolated url = values-plain req (codes "--dns") refl refl
  values-dns req open_network url = values-plain req (codes "--dns") refl refl
  values-dns req skill_declared none =
      ap (λ vs. codes "127.0.0.1" ∷ vs) (values-hosts req (codes "--dns") refl refl refl)
  values-dns req skill_declared (some url) = values-proxy req (codes "--dns") refl refl url

  pub values-add_host :
      (req : RunRequest) (policy : NetworkPolicy) (url : Option Text)
      → values (codes "--add-host") (policy_options req policy url)
        ≡ known_hosts policy url req.allowed_domains
  values-add_host req isolated url = values-plain req (codes "--add-host") refl refl
  values-add_host req open_network url = values-plain req (codes "--add-host") refl refl
  values-add_host req skill_declared none =
      values-append (codes "--add-host") (host_options req.allowed_domains) (plain_options req)
      ∙ ap (λ vs. values (codes "--add-host") (host_options req.allowed_domains) ++ vs)
          (values-plain req (codes "--add-host") refl refl)
      ∙ append_nil _
      ∙ values-loopbacks req.allowed_domains
  values-add_host req skill_declared (some url) =
      ap (λ vs. codes "host.docker.internal:host-gateway" ∷ vs)
        (values-proxy req (codes "--add-host") refl refl url)

  plain-env :
      (req : RunRequest)
      → values (codes "--env") (plain_options req) ≡ assignments (sorted_entries req.env)
  plain-env req =
      values-append (codes "--env") (env_options (sorted_entries req.env)) []
      ∙ append_nil _
      ∙ values-assignments (sorted_entries req.env)

  pub values-env :
      (req : RunRequest) (policy : NetworkPolicy) (url : Option Text)
      → values (codes "--env") (policy_options req policy url)
        ≡ assignments (sorted_entries (environment policy url req.env))
  values-env req isolated url = plain-env req
  values-env req open_network url = plain-env req
  values-env req skill_declared none =
      values-append (codes "--env") (host_options req.allowed_domains) (plain_options req)
      ∙ ap (λ vs. vs ++ values (codes "--env") (plain_options req))
          (values-host_options (codes "--env") req.allowed_domains refl)
      ∙ plain-env req
  values-env req skill_declared (some url) =
      let env = sorted_entries (with_proxy (rewrite_localhost_for_container url) req.env) in
      values-append (codes "--env") (env_options env) (label_options req)
      ∙ append_nil _
      ∙ values-assignments env

  plain-labels : (req : RunRequest) → values (codes "--label") (plain_options req) ≡ labels req
  plain-labels req =
      ap (λ vs. labels req ++ vs)
        (values-append (codes "--label") (env_options (sorted_entries req.env)) []
          ∙ append_nil _
          ∙ values-env_options (codes "--label") (sorted_entries req.env) refl)

  pub values-label :
      (req : RunRequest) (policy : NetworkPolicy) (url : Option Text)
      → values (codes "--label") (policy_options req policy url) ≡ labels req
  values-label req isolated url = plain-labels req
  values-label req open_network url = plain-labels req
  values-label req skill_declared none =
      values-append (codes "--label") (host_options req.allowed_domains) (plain_options req)
      ∙ ap (λ vs. vs ++ values (codes "--label") (plain_options req))
          (values-host_options (codes "--label") req.allowed_domains refl)
      ∙ plain-labels req
  values-label req skill_declared (some url) =
      let env = sorted_entries (with_proxy (rewrite_localhost_for_container url) req.env) in
      values-append (codes "--label") (env_options env) (label_options req)
      ∙ ap (λ vs. vs ++ labels req) (values-env_options (codes "--label") env refl)
