-- ===== src/Examples/Detect.antt =====
-- The theorems on the detection of projects at a Go project with two commands.
use project_talos.Prelude.{
  ◌≢◌, ◌==◌, string_eq, String, true, false, some, [], ◌≡◌, ◌↔◌, refl, arith, eq_iff, All,
}
use project_talos.Domain.{Result, ok}
use project_talos.Detect.Plan.{BuildPlan, FileTree, file, folder, end, entry, Project}
use project_talos.Detect.Node.{PackageJson, node_detect}
use project_talos.Detect.Providers.{
  static_detect, Provider, provider_name, detects, detect, detect_as,
}
use project_talos.Detect.Choice.{before_provider, detect-detect_as}
use project_talos.Detect.GoMain.{
  go_detect, go_plan, contains_dir, find_main_packages, detect_go_main_target,
}
use project_talos.Detect.MainPackages.{EntriesNamed, find_main_packages_lem}
use project_talos.Detect.Target.{HoldsMain, last_segment, Chosen, detect_go_main_target_lem}
use project_talos.Detect.Java.{java_detect}
use project_talos.Detect.Dockerfile.{generate_dockerfile}
use project_talos.Detect.Node.Shape.{IsPort}
use project_talos.Detect.Whole.{Exposes, detect_as-Exposes}

abbrev pub no_package : String → Result PackageJson
no_package text = ok (record { main = ""; scripts = []; dependencies = []; dev_dependencies = [] })

abbrev main_file : FileTree
main_file = file (some "// a command\npackage main\n")

abbrev pub two_commands : Project
two_commands = record {
  root_name = "7-0a1b2c3";
  entries =
      entry "cmd"
        (folder (
          entry "app" (folder (entry "main.go" main_file end))
            (entry "tool" (folder (entry "main.go" main_file end)) end)))
        (entry "go.mod" (file (some "module github.com/user/tool\n")) end);
}

abbrev pub go_project_plan : BuildPlan
go_project_plan = record {
  provider = "go";
  runtime = "golang:1.25-alpine";
  install = [];
  build = [];
  start_command = "";
  port = 8080;
  output_dir = "";
  binary_name = "tool";
  static_dir = "";
  build_target = "./cmd/tool";
}

detected : detect no_package two_commands ≡ ok go_project_plan
unfolding detect static_detect node_detect go_detect java_detect go_plan
detected = refl

not_dot : (s : String) → (s == ".") ≡ false → s ≢ "."
not_dot s f = ground (arith, eq_iff s ".", f)

names : EntriesNamed two_commands.entries
names = (
  (refl, not_dot "cmd" refl),
  (
    (refl, not_dot "app" refl),
    ((refl, not_dot "main.go" refl), tt, tt),
    ((refl, not_dot "tool" refl), ((refl, not_dot "main.go" refl), tt, tt), tt),
  ),
  ((refl, not_dot "go.mod" refl), tt, tt),
)

detect-detect_as_example :
    (asked : Provider) × All
      (λ earlier. detects earlier two_commands ≡ false)
      (before_provider asked)
    × (detects asked two_commands ≡ true)
    × (go_project_plan.provider ≡ provider_name asked)
    × (detect_as no_package two_commands go_project_plan.provider ≡ ok go_project_plan)
detect-detect_as_example = detect-detect_as no_package two_commands go_project_plan detected

detect_as-Exposes_example :
    IsPort 8080 × Exposes "go" 3000 (generate_dockerfile (record go_project_plan { port = 3000 }))
unfolding detect_as detect
detect_as-Exposes_example =
    detect_as-Exposes no_package two_commands "" go_project_plan 3000 detected

find_main_packages_lem_example :
    (contains_dir "cmd/app" (find_main_packages two_commands) ≡ true)
    ↔ HoldsMain two_commands "cmd/app"
find_main_packages_lem_example = find_main_packages_lem two_commands names "cmd/app"

detect_go_main_target_lem_example :
    Chosen (HoldsMain two_commands) (last_segment two_commands) (detect_go_main_target two_commands)
detect_go_main_target_lem_example = detect_go_main_target_lem two_commands names
