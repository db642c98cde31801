-- ===== src/Detect/Java.antt =====
-- internal/builder/detect/java.go: the plan of a Maven or Gradle project, and its Java version.
use project_talos.Prelude.{
  String, ◌<>◌, Bool, ◌||◌, Option, none, some, List, [], ◌∷◌, ◌≡◌, refl, string_eq, if◌then◌else◌,
  has_suffix, cut_prefix,
}
use project_talos.Domain.{Result, ok}
use project_talos.Detect.Plan.{BuildPlan, Project, file_exists, read_file}
use project_talos.Detect.Scanning.{
  scan_lines, leftmost, skip_blanks, digits1, group_of, ◌>>=◌, or_else,
}

-- `<tag>(\d+)</tag>` at a place
closed_by : String → String × String → Option String
closed_by close (number, rest) = do _ ← cut_prefix rest close; some number

version_tag : String → String → String → Option String
unfolding closed_by
version_tag open_tag close_tag s = do
  rest ← cut_prefix s open_tag
  number ← digits1 rest
  closed_by close_tag number

-- `['"]?`
without_quote : String → String
without_quote s = elim (or_else (cut_prefix s "'") (cut_prefix s "\"")) [
  | some rest ↦ rest
  | none ↦ s
]

-- `key\s*=\s*['"]?(\d+)` at a place
assigned_version : String → String → Option String
unfolding without_quote
assigned_version key s = do
  rest ← cut_prefix s key
  value ← cut_prefix (skip_blanks rest) "="
  group_of (digits1 (without_quote (skip_blanks value)))

version_in_line : String → String → Option String
unfolding leftmost version_tag assigned_version digits1 skip_blanks
version_in_line filename line =
    if has_suffix filename ".xml"
    then or_else (leftmost (version_tag "<java.version>" "</java.version>") line)
        (leftmost (version_tag "<maven.compiler.source>" "</maven.compiler.source>") line)
    else or_else (leftmost (assigned_version "sourceCompatibility") line)
        (leftmost (assigned_version "languageVersion") line)

version_in : String → List String → String
unfolding version_in_line
version_in filename [] = "21"
version_in filename (line ∷ lines) =
    let rest = version_in filename lines in
    elim (version_in_line filename line) [ some version ↦ version | none ↦ rest ]

version_of : String → Option String → String
unfolding version_in scan_lines
version_of filename none = "21"
version_of filename (some text) = version_in filename (scan_lines text)

unfoldable pub detect_java_version : Project → String → String
unfolding version_of
detect_java_version p filename = version_of filename (read_file filename p)

unfoldable pub java_detect : Project → Bool
java_detect p =
    file_exists "pom.xml" p || file_exists "build.gradle" p || file_exists "build.gradle.kts" p

java_plan_with : String → String → String → String → BuildPlan
java_plan_with version install build output = record {
  provider = "java";
  runtime = "eclipse-temurin:" <> version <> "-jdk-alpine";
  install = install ∷ [];
  build = build ∷ [];
  start_command = "java -jar app.jar";
  port = 8080;
  output_dir = output;
  binary_name = "";
  static_dir = "";
  build_target = "";
}

unfoldable pub java_plan : Project → Result BuildPlan
unfolding java_plan_with detect_java_version
java_plan p =
    if file_exists "pom.xml" p
    then ok (
        java_plan_with (detect_java_version p "pom.xml") "mvn dependency:go-offline -B"
          "mvn package -DskipTests -B" "target/*.jar")
    else let gradle_file =
        if file_exists "build.gradle.kts" p then "build.gradle.kts" else "build.gradle" in
      ok (
        java_plan_with (detect_java_version p gradle_file) "gradle dependencies || true"
          "gradle build -x test" "build/libs/*.jar")

maven_version : version_of "pom.xml" (some "<a>\n<java.version>17</java.version>\n") ≡ "17"
unfolding version_of
maven_version = refl

gradle_version : version_of "build.gradle" (some "sourceCompatibility = '17'") ≡ "17"
unfolding version_of
gradle_version = refl
