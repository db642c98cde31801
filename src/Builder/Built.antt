-- ===== src/Builder/Built.antt =====
-- What a build yields.
use project_talos.Prelude.{
  ℕ, ◌<◌, String, none, ◌≡◌, [], ◌∷◌, ◌==◌, nat_eq, string_eq, if◌then◌else◌, join_path,
}
use project_talos.Domain.{Result, ok, err}
use project_talos.Action.{Action}
use project_talos.Action.Triples.{Triple}
use project_talos.Engine.Interface.{CloneAndBuildResult}
use project_talos.Detect.Plan.{BuildPlan, Project}
use project_talos.Detect.Node.{PackageJson}
use project_talos.Detect.Providers.{detect_as}
use project_talos.Detect.Dockerfile.{generate_dockerfile}
use project_talos.Detect.Whole.{Exposes}
use project_talos.Builder.{Machine, Stat}

-- What holds of a result that is not an error
abbrev pub OnOk : (CloneAndBuildResult → Type 0) → Result CloneAndBuildResult → Type 0
OnOk P (err e) = Unit
OnOk P (ok result) = P result

-- From a world where `Pre` holds, a result has `P`.
Yields :
    {W : Type 0}
    → (W → Type 0)
    → (CloneAndBuildResult → Type 0)
    → Action W (Result CloneAndBuildResult)
    → Type 0
Yields Pre P m = Triple Pre m (λ r _. OnOk P r)

abbrev Anywhere : {W : Type 0} → W → Type 0
Anywhere w = Unit

-- `docker build` has succeeded in the folder, for the image.
abbrev pub ImageBuilt : {W : Type 0} → Machine W → String → String → Type 0
ImageBuilt {W} machine build_dir image_ref =
    (v : W) × ((machine.docker_build image_ref build_dir v).0.1 ≡ none)

-- The text was written as the Dockerfile of the folder.
abbrev pub DockerfileWritten : {W : Type 0} → Machine W → String → String → Type 0
DockerfileWritten {W} machine build_dir text =
    (v : W) × ((machine.write_file (join_path (build_dir ∷ "Dockerfile" ∷ [])) text v).0 ≡ none)

-- The port of a plan: the configured one unless it is 0
abbrev pub chosen_port : ℕ → ℕ → ℕ
chosen_port configured detected = if configured == 0 then detected else configured

-- The result for a plan: the plan's provider, and the chosen port, which the Dockerfile of the plan
-- exposes
abbrev pub IsFor : BuildPlan → String → ℕ → CloneAndBuildResult → Type 0
IsFor plan image_ref configured result =
    (result.image_ref ≡ image_ref)
    × (result.provider ≡ plan.provider)
    × (result.port ≡ chosen_port configured plan.port)
    × (0 < result.port)
    × Exposes plan.provider result.port (generate_dockerfile (record plan { port = result.port }))

module _ {W : Type 0} (machine : Machine W) (unmarshal : String → Result PackageJson)
    (build_dir image_ref project_type : String) (configured : ℕ) where
  open machine use {progress, write_file, stat, read_project}

  -- What a result has, by what was there in place of the Dockerfile
  abbrev pub BuiltFrom : Project → Stat → CloneAndBuildResult → Type 0
  BuiltFrom p Stat.not_exist result =
      (plan : BuildPlan) × (detect_as unmarshal p project_type ≡ ok plan)
      × IsFor plan image_ref configured result
      × DockerfileWritten machine build_dir
          (generate_dockerfile (record plan { port = result.port }))
      × ImageBuilt machine build_dir image_ref
  BuiltFrom p _ result =
      (result.image_ref ≡ image_ref)
      × (result.port ≡ 0)
      × (result.provider ≡ "")
      × ImageBuilt machine build_dir image_ref

  abbrev start_result : CloneAndBuildResult
  start_result = record { image_ref = image_ref; port = 0; provider = "" }
