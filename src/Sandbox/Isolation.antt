-- ===== src/Sandbox/Isolation.antt =====
-- What a run of a skill leaves behind, and where it runs.
use gigaevo_platform.Prelude.{
  ◌≡◌, refl, sym, ap, ◌∙◌, ◌⊎◌, inl, inr, Bool, true, false, Option, none, some, [], ◌∷◌, arith,
}
use gigaevo_platform.Prelude.Eq.{string_eq, nat_eq}
use mathlib.Core.Path.{subst}
use gigaevo_platform.Prelude.{if-elim}
use gigaevo_platform.Prelude.Text.{Text, text_eq}
use gigaevo_platform.Prelude.Result.{Result, ok, err}
use gigaevo_platform.Sandbox.{Numerals, RunRequest}
use gigaevo_platform.Sandbox.Executor.{
  write_skill, with_directories, skill_files, not_materialised, SkillPayload, Backend, docker,
  Directories, directory, rmtree, SandboxConfig, SkillExecutionRequest, SkillFailure, Host, Outside,
  select_backend, build_run_request, materialise_workspace, run_on, cleaned, run_requested,
  run_materialised, run_selected, execute,
}
use gigaevo_platform.Sandbox.Bounds.{IsBounded, build_run_request-ok}

directory-rmtree : (path : Text) (dirs : Directories) → directory (rmtree path dirs) path ≡ none
directory-rmtree path [] = refl
directory-rmtree path ((p, files) ∷ dirs) = ground (arith, directory-rmtree path dirs)

module _ ⦃N : Numerals⦄ where
  -- Without the opt-in, only Docker is selected, and only where its daemon answers.
  select_backend-docker :
      (out : Outside) (config : SandboxConfig) (backend : Backend)
      → config.unsafe_local_allowed ≡ false
      → select_backend out config ≡ ok backend
      → (backend ≡ docker) × (out.docker_available ≡ true)
  unfolding select_backend
  select_backend-docker out config backend off p = (ground (arith, off, p), ground (arith, off, p))

  -- The runs that an execution adds: none, or one in Docker, of a request that was accepted and that
  -- has the command asked for.
  abbrev pub IsIsolated : Outside → SkillExecutionRequest → Host → Host → Type 0
  IsIsolated out req host after =
      (after.runs ≡ host.runs)
      ⊎ ((r : RunRequest) × (after.runs ≡ (docker, r) ∷ host.runs)
          × (out.docker_available ≡ true)
          × IsBounded r
          × (r.command ≡ req.command))

  cleaned-runs :
      (keep_workspace : Bool) (path : Text) (host : Host)
      → (cleaned keep_workspace path host).runs ≡ host.runs
  cleaned-runs true path host = refl
  cleaned-runs false path host = refl

  module _ (out : Outside) (config : SandboxConfig) (req : SkillExecutionRequest)
      (host : Host) where
    run_requested-IsIsolated :
        (keep_workspace : Bool) (path : Text) (built : Result SkillFailure RunRequest) (now : Host)
        → now.runs ≡ host.runs
        → out.docker_available ≡ true
        → ((r : RunRequest) → built ≡ ok r → IsBounded r × (r.command ≡ req.command))
        → IsIsolated out req host (run_requested out keep_workspace docker path built now).1
    run_requested-IsIsolated keep_workspace path (err e) now same up good =
        inl (cleaned-runs keep_workspace path now ∙ same)
    run_requested-IsIsolated keep_workspace path (ok r) now same up good = inr (
      r,
      cleaned-runs keep_workspace path (run_on out keep_workspace docker r now).1
          ∙ ap (λ rs. (docker, r) ∷ rs) same,
      up,
      (good r refl).0,
      (good r refl).1,
    )

    run_materialised-IsIsolated :
        (keep_workspace : Bool) (made : Result SkillFailure Text × Host)
        → made.1.runs ≡ host.runs
        → out.docker_available ≡ true
        → IsIsolated out req host (run_materialised out config req keep_workspace docker made).1
    run_materialised-IsIsolated keep_workspace (err e, now) same up = inl same
    run_materialised-IsIsolated keep_workspace (ok path, now) same up =
        run_requested-IsIsolated keep_workspace path (build_run_request config req path) now same up
          (build_run_request-ok config req path)

    write_skill-runs : (decoded : Option Text) → (write_skill out decoded host).1.runs ≡ host.runs
    write_skill-runs none = refl
    write_skill-runs (some skill_md) =
        if-elim {A = Result SkillFailure Text × Host} (λ made. made.1.runs ≡ host.runs)
          out.can_write
          (
            ok out.new_directory,
            with_directories host ((out.new_directory, skill_files skill_md) ∷ host.directories),
          )
          (err not_materialised, with_directories host (rmtree out.new_directory host.directories))
          (λ b. refl) (λ b. refl)

    materialise-runs : (materialise_workspace out req host).1.runs ≡ host.runs
    unfolding materialise_workspace
    materialise-runs = write_skill-runs (out.b64decode req.skill_md_b64)

    run_selected-IsIsolated :
        (keep_workspace : Bool) (chosen : Result SkillFailure Backend)
        → ((b : Backend) → chosen ≡ ok b → (b ≡ docker) × (out.docker_available ≡ true))
        → IsIsolated out req host (run_selected out config req keep_workspace chosen host).1
    run_selected-IsIsolated keep_workspace (err e) good = inl refl
    run_selected-IsIsolated keep_workspace (ok b) good =
        let (same, up) = good b refl in
        subst
          (λ c.
            IsIsolated out req host
              (run_materialised out config req keep_workspace c
                (materialise_workspace out req host)).1)
          (sym same)
          (run_materialised-IsIsolated keep_workspace (materialise_workspace out req host)
            materialise-runs up)

    -- Where the configuration does not allow the local backend, an execution starts no run, or one
    -- in Docker, whose daemon answers, of a request with the command asked for, positive limits,
    -- and domains if the skill declares its network.
    pub execute-IsIsolated :
        (keep_workspace : Bool)
        → config.unsafe_local_allowed ≡ false
        → IsIsolated out req host (execute out config req keep_workspace host).1
    unfolding execute
    execute-IsIsolated keep_workspace off =
        run_selected-IsIsolated keep_workspace (select_backend out config)
          (λ b p. select_backend-docker out config b off p)

    -- The new directory is not there.
    abbrev IsGone : Result SkillFailure SkillPayload × Host → Type 0
    IsGone outcome = directory outcome.1.directories out.new_directory ≡ none

    run_requested-IsGone :
        (backend : Backend) (built : Result SkillFailure RunRequest) (now : Host)
        → IsGone (run_requested out false backend out.new_directory built now)
    run_requested-IsGone backend (err e) now = directory-rmtree out.new_directory now.directories
    run_requested-IsGone backend (ok r) now =
        directory-rmtree out.new_directory (run_on out false backend r now).1.directories

    write_skill-IsGone :
        (backend : Backend) (decoded : Option Text)
        → directory host.directories out.new_directory ≡ none
        → IsGone (run_materialised out config req false backend (write_skill out decoded host))
    write_skill-IsGone backend none fresh = fresh
    write_skill-IsGone backend (some skill_md) fresh =
        let made =
          with_directories host ((out.new_directory, skill_files skill_md) ∷ host.directories) in
        if-elim (λ m. IsGone (run_materialised out config req false backend m)) out.can_write
          (ok out.new_directory, made)
          (err not_materialised, with_directories host (rmtree out.new_directory host.directories))
          (λ b. run_requested-IsGone backend (build_run_request config req out.new_directory) made)
          (λ b. directory-rmtree out.new_directory host.directories)

    run_selected-IsGone :
        (chosen : Result SkillFailure Backend)
        → directory host.directories out.new_directory ≡ none
        → IsGone (run_selected out config req false chosen host)
    unfolding materialise_workspace
    run_selected-IsGone (err e) fresh = fresh
    run_selected-IsGone (ok backend) fresh =
        write_skill-IsGone backend (out.b64decode req.skill_md_b64) fresh

    -- A directory that is not there before, is made for the workspace of an execution that is not
    -- to keep it, and can be removed, is not there afterwards, whatever came of the run.
    pub execute-IsGone :
        directory host.directories out.new_directory ≡ none
        → directory (execute out config req false host).1.directories out.new_directory ≡ none
    unfolding execute
    execute-IsGone fresh = run_selected-IsGone (select_backend out config) fresh
