-- ===== src/Detect/Providers.antt =====
-- internal/builder/detect/static.go and detect.go: the providers, in the order in which they are
-- asked, and by their names.
use project_talos.Prelude.{
  String, ◌<>◌, Bool, not, ◌&&◌, List, [], ◌∷◌, ◌==◌, string_eq, if◌then◌else◌, any,
}
use project_talos.Domain.{Result, ok, err, Error, message, wrap}
use project_talos.Detect.Plan.{BuildPlan, Project, file_exists}
use project_talos.Detect.Node.{PackageJson, node_detect, node_plan}
use project_talos.Detect.GoMain.{go_detect, go_plan}
use project_talos.Detect.Java.{java_detect, java_plan}

build_files : List String
build_files = "package.json" ∷ "go.mod" ∷ "pom.xml" ∷ "build.gradle" ∷ "build.gradle.kts" ∷ []

unfoldable pub static_detect : Project → Bool
unfolding build_files
static_detect p = file_exists "index.html" p && not (any (λ f. file_exists f p) build_files)

unfoldable pub static_plan : Project → Result BuildPlan
static_plan p = ok (record {
  provider = "static";
  runtime = "nginx:alpine";
  install = [];
  build = [];
  start_command = "";
  port = 80;
  output_dir = "";
  binary_name = "";
  static_dir = ".";
  build_target = "";
})

pub data Provider : Type 0 where
  static_provider node_provider go_provider java_provider : Provider

-- `Name()`
abbrev pub provider_name : Provider → String
provider_name static_provider = "static"
provider_name node_provider = "node"
provider_name go_provider = "go"
provider_name java_provider = "java"

-- `Detect(root)`
abbrev pub detects : Provider → Project → Bool
detects static_provider = static_detect
detects node_provider = node_detect
detects go_provider = go_detect
detects java_provider = java_detect

abbrev pub providers : List Provider
providers = static_provider ∷ node_provider ∷ go_provider ∷ java_provider ∷ []

abbrev pub unsupported : Error
unsupported =
    message
      "unsupported project type: no package.json, go.mod, pom.xml, build.gradle, or index.html found"

module _ (unmarshal : String → Result PackageJson) where
  -- `Plan(root)`
  abbrev pub plan_by : Provider → Project → Result BuildPlan
  plan_by static_provider = static_plan
  plan_by node_provider = node_plan unmarshal
  plan_by go_provider = go_plan
  plan_by java_provider = java_plan

  unfoldable pub named_error : Provider → Result BuildPlan → Result BuildPlan
  named_error asked (ok plan) = ok plan
  named_error asked (err e) = err (wrap ("provider " <> provider_name asked) e)

  unfoldable pub detect_among : List Provider → Project → Result BuildPlan
  unfolding named_error
  detect_among [] p = err unsupported
  detect_among (asked ∷ rest) p =
      let later = detect_among rest p in
      if detects asked p then named_error asked (plan_by asked p) else later

  unfoldable pub detect : Project → Result BuildPlan
  unfolding detect_among
  detect p = detect_among providers p

  unfoldable pub plan_named : List Provider → String → Project → Result BuildPlan
  plan_named [] name p = err (message ("unknown project type " <> name))
  plan_named (asked ∷ rest) name p =
      let later = plan_named rest name p in
      if provider_name asked == name then plan_by asked p else later

  unfoldable pub detect_as : Project → String → Result BuildPlan
  unfolding detect plan_named
  detect_as p force_provider =
      if force_provider == "" then detect p else plan_named providers force_provider p
