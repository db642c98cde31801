-- ===== src/Builder.antt =====
-- internal/builder/builder.go: the clone of a repository and the build of its image. GitHub's
-- installation tokens, the file system, `git` and `docker` are calls of the machine; the folder
-- of the clone is read as a tree. A progress function that is nil is one that does nothing.
pub mod Naming
pub mod Cleanup
pub mod Built
use project_talos.Prelude.{
  ℕ, String, ◌<>◌, Option, none, some, List, [], ◌∷◌, ◌==◌, string_eq, if◌then◌else◌, show,
  join_path,
}
use project_talos.Domain.{App, Error, message, wrap, Result, ok, err}
use project_talos.Action.{Action, pure, ◌>>=◌, ◌>>◌}
use project_talos.Engine.Interface.{CloneAndBuildResult}
use project_talos.Builder.Naming.{
  short_commit_sha, effective_plan_port, build_auth_url, build_image_ref, clone_dir,
}
use project_talos.Detect.Plan.{BuildPlan, Project}
use project_talos.Detect.Node.{PackageJson}
use project_talos.Detect.Providers.{detect_as}
use project_talos.Detect.Dockerfile.{generate_dockerfile}

-- What `CombinedOutput` gives: the output, and an error unless the command succeeded
abbrev pub Output : Type 0
Output = String × Option Error

-- What `os.Stat` says of a file
pub data Stat : Type 0 where
  exists not_exist failed : Stat

pub record Machine (W : Type 0) : Type 0 where
  pub get_installation_token : ℕ → Action W (Result String)
  pub mkdir_all : String → Action W (Option Error)
  pub remove_all : String → Action W (Option Error)
  -- `git clone --depth 1 --branch`: the branch, the URL and the folder
  pub git_clone : String → String → String → Action W Output
  -- `git checkout`, in a folder
  pub git_checkout : String → String → Action W Output
  -- `docker build -t`: the image, in a folder
  pub docker_build : String → String → Action W Output
  pub stat : String → W → Stat
  pub read_project : String → W → Project
  pub write_file : String → String → Action W (Option Error)
  -- the progress function: level, step and message
  pub progress : String → String → String → Action W (Unit {0})

-- `fmt.Errorf("%s failed: %s: %w", command, output, err)`
unfoldable pub command_error : String → Output → Option Error
command_error command (output, none) = none
command_error command (output, some e) = some (wrap (command <> " failed: " <> output) e)

module _ {W : Type 0} (machine : Machine W) where
  open machine use {git_clone, git_checkout, docker_build, progress}

  -- `emitProgress`, before what follows
  unfoldable pub told : {A : Type 0} → String → String → Action W A → Action W A
  told step text rest = progress "info" step text >> rest

  checked_out : String → Option Error → Action W (Option Error)
  unfolding told short_commit_sha
  checked_out commit_sha (some e) = pure (some e)
  checked_out commit_sha none =
      told "clone" ("checked out commit " <> short_commit_sha commit_sha) (pure none)

  cloned : String → String → Option Error → Action W (Option Error)
  unfolding told checked_out command_error short_commit_sha
  cloned commit_sha dest_dir (some e) = pure (some e)
  cloned commit_sha dest_dir none = told "clone" "repository cloned successfully" (
      if commit_sha == ""
      then pure none
      else told "clone" ("checking out commit " <> short_commit_sha commit_sha) (do
        output ← git_checkout commit_sha dest_dir
        checked_out commit_sha (command_error "git checkout" output)))

  unfoldable pub clone_repo : String → String → String → String → Action W (Option Error)
  unfolding told cloned
  clone_repo repo_url branch commit_sha dest_dir =
      told "clone" ("cloning repository branch " <> branch) (do
        output ← git_clone branch repo_url dest_dir
        cloned commit_sha dest_dir (command_error "git clone" output))

  image_built : CloneAndBuildResult → Option Error → Action W (Result CloneAndBuildResult)
  unfolding told
  image_built result (some e) = pure (err e)
  image_built result none = told "build_image" "Docker image built successfully" (pure (ok result))

  -- The build with the Dockerfile that is there
  unfoldable pub docker_image : String → CloneAndBuildResult → Action W (Result CloneAndBuildResult)
  unfolding told image_built command_error
  docker_image build_dir result =
      told "build_image" ("building Docker image " <> result.image_ref) (do
        output ← docker_build result.image_ref build_dir
        image_built result (command_error "docker build" output))

  unfoldable pub dockerfile_written :
      String
      → CloneAndBuildResult
      → BuildPlan
      → Option Error
      → Action W (Result CloneAndBuildResult)
  unfolding told docker_image
  dockerfile_written build_dir result plan (some e) =
      pure (err (wrap "write generated Dockerfile" e))
  dockerfile_written build_dir result plan none =
      told "build_detect"
        ("generated " <> plan.provider <> " Dockerfile on port " <> show plan.port)
        (docker_image build_dir (record result { port = plan.port; provider = plan.provider }))

module _ {W : Type 0} (machine : Machine W) (unmarshal : String → Result PackageJson) where
  open machine use {get_installation_token, mkdir_all, remove_all, stat, read_project, write_file}

  unfoldable pub planned :
      String → CloneAndBuildResult → ℕ → Result BuildPlan → Action W (Result CloneAndBuildResult)
  unfolding dockerfile_written
  planned build_dir result configured_port (err e) =
      pure (err (wrap "no Dockerfile and auto-detection failed" e))
  planned build_dir result configured_port (ok found) = do
    let plan = record found { port = effective_plan_port found.port configured_port }
    e ← write_file (join_path (build_dir ∷ "Dockerfile" ∷ [])) (generate_dockerfile plan)
    dockerfile_written machine build_dir result plan e

  unfoldable pub with_dockerfile :
      String → CloneAndBuildResult → String → ℕ → Stat → Action W (Result CloneAndBuildResult)
  unfolding told planned docker_image
  with_dockerfile build_dir result project_type configured_port Stat.not_exist =
      told machine "build_detect" "detecting project type and generating Dockerfile" (λ w.
        planned build_dir result configured_port
          (detect_as unmarshal (read_project build_dir w) project_type) w)
  with_dockerfile build_dir result project_type configured_port _ =
      told machine "build_detect" "using repository Dockerfile"
        (docker_image machine build_dir result)

  unfoldable pub build_image : String → String → String → ℕ → Action W (Result CloneAndBuildResult)
  unfolding with_dockerfile
  build_image build_dir image_ref project_type configured_port w =
      with_dockerfile build_dir (record { image_ref = image_ref; port = 0; provider = "" })
        project_type configured_port (stat (join_path (build_dir ∷ "Dockerfile" ∷ [])) w) w

  wrapped_build : Result CloneAndBuildResult → Result CloneAndBuildResult
  wrapped_build (err e) = err (wrap "build image" e)
  wrapped_build (ok result) = ok result

  after_clone : App → String → String → Option Error → Action W (Result CloneAndBuildResult)
  unfolding wrapped_build
  after_clone app commit_sha dir (some e) = pure (err (wrap "clone repo" e))
  after_clone app commit_sha dir none = do
    result ← build_image dir (build_image_ref app commit_sha) app.project_type app.internal_port
    pure (wrapped_build result)

  -- `defer os.RemoveAll(cloneDir)`, whose error nothing reads
  unfoldable pub removing : {A : Type 0} → String → Action W A → Action W A
  removing dir body w = let (a, w') = body w in (a, (remove_all dir w').1)

  unfoldable pub in_clone_dir :
      App → String → String → String → Option Error → Action W (Result CloneAndBuildResult)
  unfolding removing after_clone
  in_clone_dir app commit_sha token dir (some e) = pure (err (wrap "create clone dir" e))
  in_clone_dir app commit_sha token dir none = removing dir (do
    e ← clone_repo machine (build_auth_url app.repo_url token) app.branch commit_sha dir
    after_clone app commit_sha dir e)

  unfoldable pub with_token :
      App → String → String → Result String → Action W (Result CloneAndBuildResult)
  unfolding told in_clone_dir
  with_token app commit_sha dir (err e) = pure (err (wrap "get installation token" e))
  with_token app commit_sha dir (ok token) =
      told machine "build_auth" "GitHub installation token ready"
        (do e ← mkdir_all dir; in_clone_dir app commit_sha token dir e)

  unfoldable pub for_installation :
      App → String → String → Option ℕ → Action W (Result CloneAndBuildResult)
  unfolding told with_token
  for_installation app commit_sha dir none =
      pure (err (message ("app " <> show app.id <> " has no GitHub installation")))
  for_installation app commit_sha dir (some installation) =
      if commit_sha == ""
      then pure (err (message "commit SHA is required for talos_build"))
      else told machine "build_auth" "requesting GitHub installation token"
          (do token ← get_installation_token installation; with_token app commit_sha dir token)

  -- `CloneAndBuildWithProgress` of a builder with its data in a folder
  unfoldable pub clone_and_build_with_progress :
      String → App → String → Action W (Result CloneAndBuildResult)
  unfolding for_installation
  clone_and_build_with_progress data_dir app commit_sha =
      for_installation app commit_sha (clone_dir data_dir app commit_sha) app.github_installation_id
