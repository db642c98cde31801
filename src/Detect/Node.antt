-- ===== src/Detect/Node.antt =====
-- internal/builder/detect/node.go. The decoding of package.json by `encoding/json` is a parameter; a
-- JSON object of texts is the list of its members.
pub mod Shape
use project_talos.Prelude.{
  ℕ, String, ◌<>◌, Bool, true, false, ◌||◌, ◌&&◌, not, Option, none, some, List, [], ◌∷◌, ◌++◌, ◌≡◌,
  refl, ltb, ◌==◌, string_eq, if◌then◌else◌, cut_prefix,
}
use project_talos.Domain.{Result, ok, err, wrap, message}
use project_talos.Detect.Plan.{BuildPlan, Project, file_exists, read_file}
use project_talos.Detect.Scanning.{leftmost, skip_blanks1, digits1, group_of, ◌>>=◌, or_else, atoi}

abbrev pub StringMap : Type 0
StringMap = List (String × String)

pub record PackageJson : Type 0 where
  pub main : String
  pub scripts : StringMap
  pub dependencies : StringMap
  pub dev_dependencies : StringMap

-- `v, ok := m[key]`
abbrev pub member : String → StringMap → Option String
member key [] = none
member key ((k, v) ∷ m) = let rest = member key m in if k == key then some v else rest

abbrev pub has_member : String → StringMap → Bool
has_member key m = elim (member key m) [ none ↦ false | some _ ↦ true ]

-- The later map's members stand first, so they replace those of the earlier one.
merge_deps : PackageJson → StringMap
merge_deps pkg = pkg.dev_dependencies ++ pkg.dependencies

has_server_dep : StringMap → Bool
has_server_dep deps =
    has_member "express" deps
    || has_member "fastify" deps
    || has_member "hono" deps
    || has_member "koa" deps
    || has_member "@hono/node-server" deps

-- `(?:-p|--port)\s+(\d+)` at a place
port_flag_at : String → Option String
port_flag_at s = do
  rest ← or_else (cut_prefix s "-p") (cut_prefix s "--port")
  number ← skip_blanks1 rest
  group_of (digits1 number)

port_of : Option String → ℕ
port_of none = 0
port_of (some number) = atoi number

unfoldable pub parse_port_from_cmd : String → ℕ
unfolding port_of port_flag_at leftmost skip_blanks1 digits1 atoi
parse_port_from_cmd cmd = port_of (leftmost port_flag_at cmd)

node_package_manager : Project → Bool → String
node_package_manager p is_bun =
    if is_bun
    then "bun"
    else if file_exists "pnpm-lock.yaml" p
    then "pnpm"
    else if file_exists "yarn.lock" p
    then "yarn"
    else "npm"

node_install_cmd : Project → Bool → String
node_install_cmd p is_bun =
    if is_bun
    then "bun install --frozen-lockfile"
    else if file_exists "pnpm-lock.yaml" p
    then "corepack enable && pnpm install --frozen-lockfile"
    else if file_exists "yarn.lock" p
    then "corepack enable && yarn install --frozen-lockfile"
    else if file_exists "package-lock.json" p
    then "npm ci"
    else "npm install"

node_start_main : PackageJson → String
node_start_main pkg = if pkg.main == "" then "node index.js" else "node " <> pkg.main

-- What a framework or a server library among the dependencies says
from_deps : String → PackageJson → StringMap → String × ℕ
unfolding has_server_dep node_start_main
from_deps pm pkg deps =
    if has_member "next" deps
    then (pm <> " next start", 3000)
    else if has_member "nuxt" deps
    then ("node .output/server/index.mjs", 3000)
    else if has_member "@angular/core" deps
    then (pm <> " ng serve --host 0.0.0.0", 4200)
    else if has_member "vite" deps && not (has_server_dep deps)
    then ("", 80)
    else if has_server_dep deps
    then (node_start_main pkg, 3000)
    else if pkg.main == ""
    then ("node index.js", 3000)
    else ("node " <> pkg.main, 3000)

start_of : String → PackageJson → Option String → String × ℕ
unfolding parse_port_from_cmd from_deps merge_deps
start_of pm pkg (some cmd) =
    let port = parse_port_from_cmd cmd in if ltb 0 port then (cmd, port) else (cmd, 3000)
start_of pm pkg none = from_deps pm pkg (merge_deps pkg)

unfoldable pub detect_start_command : String → PackageJson → String × ℕ
unfolding start_of
detect_start_command pm pkg = start_of pm pkg (member "start" pkg.scripts)

is_bun_project : Project → Bool
is_bun_project p = file_exists "bun.lockb" p || file_exists "bunfig.toml" p

plan_of : Project → PackageJson → BuildPlan
unfolding node_package_manager node_install_cmd detect_start_command is_bun_project
plan_of p pkg =
    let is_bun = is_bun_project p in
    let pm = node_package_manager p is_bun in
    let start = detect_start_command pm pkg in
    record {
      provider = "node";
      runtime = if is_bun then "oven/bun:1-alpine" else "node:22-alpine";
      install = node_install_cmd p is_bun ∷ [];
      build = if has_member "build" pkg.scripts then (pm <> " run build") ∷ [] else [];
      start_command = start.0;
      port = start.1;
      output_dir = "";
      binary_name = "";
      static_dir = "";
      build_target = "";
    }

unfoldable pub node_detect : Project → Bool
node_detect p = file_exists "package.json" p

module _ (unmarshal : String → Result PackageJson) where
  -- The text of the error is the system's.
  package_json : Option String → Result PackageJson
  package_json none = err (message "open package.json")
  package_json (some text) = unmarshal text

  planned : Project → Result PackageJson → Result BuildPlan
  unfolding plan_of
  planned p (err e) = err (wrap "parse package.json" e)
  planned p (ok pkg) = ok (plan_of p pkg)

  unfoldable pub node_plan : Project → Result BuildPlan
  unfolding package_json planned
  node_plan p = planned p (package_json (read_file "package.json" p))

port_of_flag : parse_port_from_cmd "node server.js --port 8888" ≡ 8888
unfolding parse_port_from_cmd
port_of_flag = refl

no_port : parse_port_from_cmd "node --ports 8888 -p80" ≡ 0
unfolding parse_port_from_cmd
no_port = refl
