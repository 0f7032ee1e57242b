-- ===== src/Samples/Skills.antt =====
-- A skill that is run in a container. Numbers of CPUs are numbers of thousandths.
use gigaevo_platform.Prelude.{ℕ, ◌≡◌, refl, true, false, none, some, [], ◌∷◌, ltb, drop, String}
use gigaevo_platform.Prelude.Eq.{string_eq, nat_eq}
use gigaevo_platform.Prelude.Text.{Text, codes}
use gigaevo_platform.Prelude.Ints.{pos}
use gigaevo_platform.Prelude.Result.{Result, ok}
use gigaevo_platform.Prelude.Dict.{Dict, get, put}
use gigaevo_platform.SkillManifest.{Decoders, mapping, text}
use gigaevo_platform.SkillManifest.{frontmatter}
use gigaevo_platform.Skills.{load_index, lookup, Bucket, Web, AgentSkillResolveRequest, resolve}
use gigaevo_platform.Skills.Cache.{IsGenuine}
use gigaevo_platform.Skills.Hits.{ReadsBack, IsHit, resolve-IsHit}
use gigaevo_platform.Skills.Genuine.{resolve-IsGenuine}
use gigaevo_platform.Sandbox.{Numerals, RunRequest, RunResult, skill_declared}
use gigaevo_platform.Sandbox.Docker.{build_docker_run_args}
use gigaevo_platform.Sandbox.Reading.{read_docker}
use gigaevo_platform.Sandbox.Container.{Contains, build_docker_run_args-Contains}
use gigaevo_platform.Sandbox.Executor.{
  Backend, Directories, directory, SandboxConfig, SkillExecutionRequest, Host, Outside, execute,
}
use gigaevo_platform.Sandbox.Isolation.{IsIsolated, execute-IsIsolated, execute-IsGone}

instance abbrev thousandths : Numerals
thousandths = record {
  Cpu = ℕ;
  is_positive_cpu = λ n. ltb 0 n;
  cpu_text = λ n. n ∷ [];
  int_text = λ n. codes "1";
}

abbrev request : RunRequest
request = record {
  skill_sha256 = codes "ab";
  skill_name = codes "count";
  workspace = codes "/tmp/w";
  command = codes "python" ∷ [];
  env = (codes "LANG", codes "C") ∷ [];
  cpu_limit = 1000;
  memory_limit_mb = pos 512;
  pids_limit = pos 256;
  timeout_seconds = pos 60;
  network = skill_declared;
  allowed_domains = codes "care.org" ∷ [];
  image = codes "python:3.12-slim";
}

build_docker_run_args-Contains_example :
    Contains request
      (codes "g")
      none
      (read_docker (drop 2 (build_docker_run_args request (codes "g") none)))
build_docker_run_args-Contains_example =
    build_docker_run_args-Contains request (codes "g") none refl

abbrev config : SandboxConfig
config = record {
  backend = "auto";
  unsafe_local_allowed = false;
  default_cpu_limit = 1000;
  default_memory_limit_mb = pos 512;
  default_pids_limit = pos 256;
  default_timeout_seconds = pos 60;
  image = codes "python:3.12-slim";
}

abbrev task : SkillExecutionRequest
task = record {
  skill_sha256 = codes "ab";
  skill_name = codes "count";
  skill_md_b64 = codes "LS0t";
  command = codes "python" ∷ [];
  env = [];
  cpu_limit = none;
  memory_limit_mb = none;
  pids_limit = none;
  timeout_seconds = some (pos 5);
  network = "none";
  allowed_domains = none;
  image = none;
}

abbrev finished : RunResult
finished = record {
  exit_code = pos 0;
  stdout = [];
  stderr = [];
  timed_out = false;
  container_name = none;
  backend = codes "docker";
}

abbrev finishes : Backend → RunRequest → Directories → Result Text RunResult × Directories
finishes backend r dirs = (ok finished, dirs)

abbrev outside : Outside
outside = record {
  lower = λ s. s;
  docker_available = true;
  b64decode = λ s. some s;
  new_directory = codes "/tmp/w";
  can_write = true;
  run = finishes;
}

abbrev host : Host
host = record { directories = []; runs = [] }

execute-IsIsolated_example : IsIsolated outside task host (execute outside config task false host).1
execute-IsIsolated_example = execute-IsIsolated outside config task host false refl

execute-IsGone_example :
    directory (execute outside config task false host).1.directories (codes "/tmp/w") ≡ none
execute-IsGone_example = execute-IsGone outside config task host refl

abbrev decoders : Decoders
decoders = record {
  decode_utf8 = λ s. some s;
  safe_load = λ s. some (mapping (("name", text (codes "count")) ∷ []));
}

abbrev web : Web
web = record {
  get_uri = λ uri. some (codes "---\nname: count\n---\n");
  sha256 = λ s. "hash";
  dump_index = λ index. codes "{}";
  load_json = λ s. none;
  decoders = decoders;
  can_upload_skill = true;
  can_upload_index = true;
}

abbrev wanted : AgentSkillResolveRequest
wanted = record { uri = "https://a/SKILL.md"; expected_sha256 = some "hash"; force_refresh = false }

abbrev empty_bucket : Bucket
empty_bucket = record { index_object = none; skills = [] }

resolve-IsGenuine_example : IsGenuine web wanted empty_bucket (resolve web wanted empty_bucket)
resolve-IsGenuine_example = resolve-IsGenuine web wanted empty_bucket tt

abbrev index : Dict String
index = ("https://a/SKILL.md", "hash") ∷ []

abbrev readable_web : Web
readable_web = record web { load_json = λ s. some index }

readable :
    ReadsBack readable_web (put (load_index readable_web empty_bucket) "https://a/SKILL.md" "hash")
unfolding load_index put
readable = (refl, refl)

unseen : lookup readable_web wanted empty_bucket ≡ none
unfolding lookup get
unseen = refl

unstored : get empty_bucket.skills "hash" ≡ none
unfolding get
unstored = refl

resolve-IsHit_example : IsHit readable_web wanted (resolve readable_web wanted empty_bucket)
resolve-IsHit_example =
    resolve-IsHit readable_web wanted refl (codes "---\nname: count\n---\n") refl refl empty_bucket
      readable unseen refl unstored

-- A file with one entry: the body ends at the first fence that follows.
one_entry : frontmatter (codes "---\nname: a\n---\n# A\n---\n") ≡ some (codes "name: a")
unfolding frontmatter
one_entry = refl
