-- ===== src/Detect/Dockerfile.antt =====
-- internal/builder/detect/dockerfile.go. A template is the list of its parts, a text or what an action
-- writes; `index` of a list that is too short has no text, and ends the execution there.
use project_talos.Prelude.{
  String, ◌<>◌, Bool, false, not, Option, none, some, List, [], ◌∷◌, map, ◌≡◌, refl, ◌==◌,
  string_eq, if◌then◌else◌, show, join, is_space, is_empty, head?,
}
use project_talos.Detect.Plan.{BuildPlan}

-- A character of the first word
abbrev grow_word : List String → String → List String
grow_word [] c = c ∷ []
grow_word (word ∷ words) c = (c <> word) ∷ words

-- The words of a text, the first one empty where the text begins with white space
words : String → List String
unfolding is_space
words String.[] = "" ∷ []
words (String.◌∷◌ c s) =
    let rest = words s in if is_space c then "" ∷ rest else grow_word rest (String.◌∷◌ c "")

without_empty : List String → List String
without_empty [] = []
without_empty (word ∷ ws) = let rest = without_empty ws in if word == "" then rest else word ∷ rest

-- `strings.Fields`
unfoldable pub fields : String → List String
unfolding words without_empty
fields s = without_empty (words s)

pub quote : String → String
quote part = "\"" <> part <> "\""

unfoldable pub cmd_to_json : String → String
unfolding fields quote
cmd_to_json cmd = if cmd == "" then "[\"sh\"]" else "[" <> join ", " (map quote (fields cmd)) <> "]"

abbrev pub Template : Type 0
Template = List (Option String)

-- `tmpl.Execute`: what it has written when it ends or stops
unfoldable pub execute_template : Template → String
execute_template [] = ""
execute_template (none ∷ parts) = ""
execute_template (some text ∷ parts) = text <> execute_template parts

unfoldable pub static_dockerfile : BuildPlan → Template
static_dockerfile plan =
    some "FROM "
    ∷ some "nginx:alpine\nCOPY . /usr/share/nginx/html"
    ∷ some "\nEXPOSE "
    ∷ some (show plan.port)
    ∷ some "\n"
    ∷ []

unfoldable pub node_dockerfile : BuildPlan → Template
node_dockerfile plan =
    some "FROM "
    ∷ some plan.runtime
    ∷ some "\nWORKDIR /app\nCOPY package*.json ./\nRUN "
    ∷ head? plan.install
    ∷ some "\nCOPY . ."
    ∷ some "\nEXPOSE "
    ∷ some (show plan.port)
    ∷ some "\n"
    ∷ some "CMD "
    ∷ some (cmd_to_json plan.start_command)
    ∷ some "\n"
    ∷ []

unfoldable pub node_build_dockerfile : BuildPlan → Template
node_build_dockerfile plan =
    some "FROM "
    ∷ some plan.runtime
    ∷ some " AS builder\nWORKDIR /app\nCOPY package*.json ./\nRUN "
    ∷ head? plan.install
    ∷ some "\nCOPY . .\nRUN "
    ∷ head? plan.build
    ∷ some "\n\nFROM "
    ∷ some plan.runtime
    ∷ some "\nWORKDIR /app\nCOPY package*.json ./"
    ∷ some (if plan.runtime == "node:22-alpine" then "\nRUN npm ci --omit=dev" else "")
    ∷ some "\nCOPY --from=builder /app/dist ./dist\nCOPY --from=builder /app/.next ./.next\n"
    ∷ some "COPY --from=builder /app/.output ./.output\nCOPY --from=builder /app/build ./build"
    ∷ some "\nEXPOSE "
    ∷ some (show plan.port)
    ∷ some "\n"
    ∷ some "CMD "
    ∷ some (cmd_to_json plan.start_command)
    ∷ some "\n"
    ∷ []

bun_build : List String → String
bun_build [] = ""
bun_build (command ∷ _) = "\nRUN " <> command

unfoldable pub bun_dockerfile : BuildPlan → Template
unfolding bun_build
bun_dockerfile plan =
    some "FROM "
    ∷ some "oven/bun:1-alpine AS builder\nWORKDIR /app\nCOPY bun.lockb package.json ./\n"
    ∷ some "RUN bun install --frozen-lockfile\nCOPY . ."
    ∷ some (bun_build plan.build)
    ∷ some "\n\nFROM oven/bun:1-alpine\nWORKDIR /app\nCOPY --from=builder /app ."
    ∷ some "\nEXPOSE "
    ∷ some (show plan.port)
    ∷ some "\n"
    ∷ some "CMD "
    ∷ some (cmd_to_json plan.start_command)
    ∷ some "\n"
    ∷ []

unfoldable pub go_dockerfile : BuildPlan → Template
go_dockerfile plan =
    some "FROM "
    ∷ some "golang:1.25-alpine AS builder\nWORKDIR /app\nCOPY go.mod go.sum ./\n"
    ∷ some "RUN go mod download\nCOPY . .\n"
    ∷ some "RUN CGO_ENABLED=0 go build -p=1 -ldflags=\"-s -w\" -o /"
    ∷ some plan.binary_name
    ∷ some " "
    ∷ some plan.build_target
    ∷ some "\n\nFROM alpine:3.23\nRUN apk --no-cache add ca-certificates\nWORKDIR /app\n"
    ∷ some "COPY --from=builder /"
    ∷ some plan.binary_name
    ∷ some " ."
    ∷ some "\nEXPOSE "
    ∷ some (show plan.port)
    ∷ some "\n"
    ∷ some "CMD [\"./"
    ∷ some plan.binary_name
    ∷ some "\"]\n"
    ∷ []

unfoldable pub maven_dockerfile : BuildPlan → Template
maven_dockerfile plan =
    some "FROM "
    ∷ some plan.runtime
    ∷ some " AS builder\nWORKDIR /app\nCOPY pom.xml .\nRUN mvn dependency:go-offline -B\n"
    ∷ some "COPY src ./src\nRUN mvn package -DskipTests -B\n\n"
    ∷ some "FROM eclipse-temurin:21-jre-alpine\nWORKDIR /app\n"
    ∷ some "COPY --from=builder /app/target/*.jar app.jar"
    ∷ some "\nEXPOSE "
    ∷ some (show plan.port)
    ∷ some "\n"
    ∷ some "CMD [\"java\", \"-jar\", \"app.jar\"]\n"
    ∷ []

unfoldable pub gradle_dockerfile : BuildPlan → Template
gradle_dockerfile plan =
    some "FROM "
    ∷ some plan.runtime
    ∷ some " AS builder\nWORKDIR /app\nCOPY build.gradle* gradle* ./\nCOPY gradle ./gradle\n"
    ∷ some "RUN gradle dependencies || true\nCOPY src ./src\nRUN gradle build -x test\n\n"
    ∷ some "FROM eclipse-temurin:21-jre-alpine\nWORKDIR /app\n"
    ∷ some "COPY --from=builder /app/build/libs/*.jar app.jar"
    ∷ some "\nEXPOSE "
    ∷ some (show plan.port)
    ∷ some "\n"
    ∷ some "CMD [\"java\", \"-jar\", \"app.jar\"]\n"
    ∷ []

first_is : String → Option String → Bool
first_is text none = false
first_is text (some first) = first == text

-- The template for a plan; no provider has another name.
unfoldable pub template_of : BuildPlan → Template
unfolding static_dockerfile bun_dockerfile node_build_dockerfile node_dockerfile go_dockerfile
    maven_dockerfile gradle_dockerfile first_is
template_of plan =
    if plan.provider == "static"
    then static_dockerfile plan
    else if plan.provider == "node"
    then (if plan.runtime == "oven/bun:1-alpine"
        then bun_dockerfile plan
        else if not (is_empty plan.build)
        then node_build_dockerfile plan
        else node_dockerfile plan)
    else if plan.provider == "go"
    then go_dockerfile plan
    else if plan.provider == "java"
    then (if first_is "mvn dependency:go-offline -B" (head? plan.install)
        then maven_dockerfile plan
        else gradle_dockerfile plan)
    else []

unfoldable pub generate_dockerfile : BuildPlan → String
unfolding template_of execute_template static_dockerfile bun_dockerfile node_build_dockerfile
    node_dockerfile go_dockerfile maven_dockerfile gradle_dockerfile show cmd_to_json
generate_dockerfile plan = execute_template (template_of plan)

cmd_test : cmd_to_json " npm  start" ≡ "[\"npm\", \"start\"]"
unfolding cmd_to_json
cmd_test = refl

cmd_empty : cmd_to_json "" ≡ "[\"sh\"]"
unfolding cmd_to_json
cmd_empty = refl
