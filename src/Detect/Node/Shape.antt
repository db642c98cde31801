-- ===== src/Detect/Node/Shape.antt =====
-- What every plan of node.go has: its provider's name, one install command, and a port.
use project_talos.Prelude.{
  ℕ, ◌^◌, ◌<◌, String, Option, none, some, [], ◌∷◌, ◌≡◌, refl, arith, subst, string_eq,
}
use project_talos.Domain.{Result, ok, err}
use project_talos.Detect.Plan.{BuildPlan, Project, read_file}
use project_talos.Detect.Scanning.{atoi, leftmost}
use project_talos.Detect.Node.{
  PackageJson, StringMap, member, from_deps, start_of, detect_start_command, merge_deps, plan_of,
  package_json, planned, node_plan, is_bun_project, node_install_cmd, node_package_manager,
  port_flag_at, port_of, parse_port_from_cmd,
}

-- A port that an `int` holds
abbrev pub IsPort : ℕ → Type 0
IsPort port = (0 < port) × (port < 2 ^ 63)

from_deps-IsPort :
    (pm : String) (pkg : PackageJson) (deps : StringMap) → IsPort (from_deps pm pkg deps).1
unfolding from_deps
from_deps-IsPort pm pkg deps = ground arith

atoi-lt : (s : String) → atoi s < 2 ^ 63
unfolding atoi
atoi-lt s = ground arith

port_of-lt : (o : Option String) → port_of o < 2 ^ 63
unfolding port_of
port_of-lt none = omega arith
port_of-lt (some number) = atoi-lt number

parse_port_from_cmd-lt : (cmd : String) → parse_port_from_cmd cmd < 2 ^ 63
unfolding parse_port_from_cmd
parse_port_from_cmd-lt cmd = port_of-lt (leftmost port_flag_at cmd)

start_of-IsPort :
    (pm : String) (pkg : PackageJson) (o : Option String) → IsPort (start_of pm pkg o).1
unfolding start_of
start_of-IsPort pm pkg (some cmd) = ground (arith, parse_port_from_cmd-lt cmd)
start_of-IsPort pm pkg none = from_deps-IsPort pm pkg (merge_deps pkg)

abbrev pub IsNodePlan : BuildPlan → Type 0
IsNodePlan plan =
    (plan.provider ≡ "node")
    × ((command : String) × (plan.install ≡ command ∷ []))
    × IsPort plan.port

module _ (unmarshal : String → Result PackageJson) (p : Project) where
  plan_of-IsNodePlan : (pkg : PackageJson) → IsNodePlan (plan_of p pkg)
  unfolding plan_of detect_start_command
  plan_of-IsNodePlan pkg =
      let is_bun = is_bun_project p in
      (
        refl,
        (node_install_cmd p is_bun, refl),
        start_of-IsPort (node_package_manager p is_bun) pkg (member "start" pkg.scripts),
      )

  planned-IsNodePlan :
      (r : Result PackageJson) (plan : BuildPlan)
      → planned unmarshal p r ≡ ok plan
      → IsNodePlan plan
  unfolding planned
  planned-IsNodePlan (ok pkg) plan h =
      let e : plan_of p pkg ≡ plan = cc in subst IsNodePlan e (plan_of-IsNodePlan pkg)
  planned-IsNodePlan (err e) plan h = cc

  pub node_plan-IsNodePlan : (plan : BuildPlan) → node_plan unmarshal p ≡ ok plan → IsNodePlan plan
  unfolding node_plan
  node_plan-IsNodePlan plan h =
      planned-IsNodePlan (package_json unmarshal (read_file "package.json" p)) plan h
