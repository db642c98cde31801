-- ===== src/Examples/Builder.antt =====
-- The theorems on the builder on a machine that knows whether the folder of the clone is there.
use project_talos.Prelude.{String, Bool, true, false, none, ◌≡◌, refl}
use project_talos.Domain.{ok}
use project_talos.Action.{pure, ◌>>=◌}
use project_talos.Engine.Interface.{CloneAndBuildResult}
use project_talos.Detect.Providers.{detect_as, static_detect}
use project_talos.Detect.Node.{node_detect}
use project_talos.Detect.GoMain.{go_detect, go_plan}
use project_talos.Builder.Naming.{clone_dir, effective_plan_port}
use project_talos.Builder.{Machine, Stat, build_image, clone_and_build_with_progress}
use project_talos.Builder.Cleanup.{Folders, IsCleaned, clone_dir_removed}
use project_talos.Examples.Detect.{no_package, two_commands}
use project_talos.Examples.Values.{shop}

abbrev is_there : String → Bool → Bool
is_there dir there = there

abbrev builder : Machine Bool
builder = record {
  get_installation_token = λ installation there. (ok "token", there);
  mkdir_all = λ dir there. (none, true);
  remove_all = λ dir there. (none, false);
  git_clone = λ branch url dir there. (("", none), there);
  git_checkout = λ sha dir there. (("", none), there);
  docker_build = λ image dir there. (("", none), there);
  stat = λ path there. Stat.not_exist;
  read_project = λ dir there. two_commands;
  write_file = λ path text there. (none, there);
  progress = λ level step text there. (tt, there);
}

builder-Folders : Folders builder is_there
builder-Folders = record {
  removed = λ dir w e. refl;
  not_made = λ dir e w failed out. absurd (cc);
  token_keeps = λ dir i w. refl;
  progress_keeps = λ dir level step text w. refl;
}

clone_dir_removed_example :
    IsCleaned builder no_package builder-Folders
      (clone_dir "data" shop "0a1b2c3d")
      (clone_and_build_with_progress builder no_package "data" shop "0a1b2c3d" false).1
clone_dir_removed_example =
    clone_dir_removed builder no_package builder-Folders "data" "0a1b2c3d" shop false refl

abbrev built_tool : CloneAndBuildResult
built_tool = record { image_ref = "ghcr.io/user/tool:0a1b2c3"; port = 8080; provider = "go" }

built :
    (build_image builder no_package "data/builds/7" built_tool.image_ref "" 0 true).0
    ≡ ok built_tool
unfolding build_image ◌>>=◌ pure detect_as static_detect node_detect go_detect go_plan
    effective_plan_port
built = refl
