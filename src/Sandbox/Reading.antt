-- ===== src/Sandbox/Reading.antt =====
-- What Docker makes of the arguments. The reader is written from the documented form of the command,
-- `docker run [OPTIONS] IMAGE [COMMAND] [ARG...]`: options start with a dash, `--rm` and `--read-only`
-- stand alone, and the others that are used here take the argument behind them.
use gigaevo_platform.Prelude.{
  ◌≡◌, refl, ap, Bool, false, not, ◌||◌, Option, none, some, List, [], ◌∷◌, ◌++◌, arith,
  if◌then◌else◌,
}
use gigaevo_platform.Prelude.Eq.{◌==◌, string_eq, nat_eq}
use gigaevo_platform.Prelude.Text.{Text, codes, text_eq}
use gigaevo_platform.Sandbox.Docker.{env_args, host_args}

pub record DockerRun : Type 0 where
  pub flags : List Text
  pub options : List (Text × Text)
  pub image : Text
  pub command : List Text

pub data Kind : Type 0 where
  word flag valued : Kind

-- `-`
abbrev pub is_option : Text → Bool
is_option [] = false
is_option (c ∷ s) = c == 45

abbrev kind : Text → Kind
kind a =
    if not (is_option a)
    then word
    else if a == codes "--rm" || a == codes "--read-only"
    then flag
    else valued

abbrev pub add_flag : Text → Option DockerRun → Option DockerRun
add_flag a none = none
add_flag a (some run) = some (record run { flags = a ∷ run.flags })

abbrev pub add_option : Text → Text → Option DockerRun → Option DockerRun
add_option a v none = none
add_option a v (some run) = some (record run { options = (a, v) ∷ run.options })

abbrev pub bare_run : Text → List Text → DockerRun
bare_run image command = record { flags = []; options = []; image = image; command = command }

unfoldable pub read_docker : List Text → Option DockerRun
read_docker [] = none
read_docker (a ∷ []) = elim (kind a) [ word ↦ some (bare_run a []) | flag ↦ none | valued ↦ none ]
read_docker (a ∷ v ∷ rest) = elim (kind a) [
  | word ↦ some (bare_run a (v ∷ rest))
  | flag ↦ add_flag a (read_docker (v ∷ rest))
  | valued ↦ add_option a v (read_docker rest)
]

-- The values that an option is given.
abbrev pub values : Text → List (Text × Text) → List Text
values k [] = []
values k ((j, v) ∷ options) = let rest = values k options in if j == k then v ∷ rest else rest

abbrev pub add_options : List (Text × Text) → Option DockerRun → Option DockerRun
add_options [] o = o
add_options ((a, v) ∷ options) o = add_option a v (add_options options o)

abbrev pub env_options : List (Text × Text) → List (Text × Text)
env_options [] = []
env_options ((k, v) ∷ env) = (codes "--env", k ++ codes "=" ++ v) ∷ env_options env

abbrev pub host_options : List Text → List (Text × Text)
host_options [] = []
host_options (host ∷ hosts) = (codes "--add-host", host ++ codes ":127.0.0.1") ∷ host_options hosts

pub read_docker-env_args :
    (env : List (Text × Text)) (rest : List Text)
    → read_docker (env_args env ++ rest) ≡ add_options (env_options env) (read_docker rest)
unfolding read_docker
read_docker-env_args [] rest = refl
read_docker-env_args ((k, v) ∷ env) rest =
    ap (add_option (codes "--env") (k ++ codes "=" ++ v)) (read_docker-env_args env rest)

pub read_docker-host_args :
    (hosts : List Text) (rest : List Text)
    → read_docker (host_args hosts ++ rest) ≡ add_options (host_options hosts) (read_docker rest)
unfolding read_docker
read_docker-host_args [] rest = refl
read_docker-host_args (host ∷ hosts) rest =
    ap (add_option (codes "--add-host") (host ++ codes ":127.0.0.1"))
      (read_docker-host_args hosts rest)

pub read_docker-command :
    (image : Text) (command : List Text)
    → is_option image ≡ false
    → read_docker (image ∷ command) ≡ some (bare_run image command)
unfolding read_docker
read_docker-command image [] h = rw (read_docker, h)
read_docker-command image (v ∷ rest) h = rw (read_docker, h)

pub add_options-some :
    (options : List (Text × Text)) (run : DockerRun)
    → add_options options (some run) ≡ some (record run { options = options ++ run.options })
add_options-some [] run = refl
add_options-some ((a, v) ∷ options) run = ap (add_option a v) (add_options-some options run)

pub values-append :
    (k : Text) (xs ys : List (Text × Text)) → values k (xs ++ ys) ≡ values k xs ++ values k ys
values-append k [] ys = refl
values-append k ((j, v) ∷ xs) ys = ground (arith, values-append k xs ys)

pub values-env_options :
    (k : Text) (env : List (Text × Text))
    → (codes "--env" == k) ≡ false
    → values k (env_options env) ≡ []
values-env_options k [] h = refl
values-env_options k ((j, v) ∷ env) h = rw (h, values-env_options k env h)

pub values-host_options :
    (k : Text) (hosts : List Text)
    → (codes "--add-host" == k) ≡ false
    → values k (host_options hosts) ≡ []
values-host_options k [] h = refl
values-host_options k (host ∷ hosts) h = rw (h, values-host_options k hosts h)
