-- ===== src/Detect/Whole.antt =====
-- The Dockerfile of a plan exposes its port and goes to its end.
use project_talos.Prelude.{
  ℕ, String, ◌<>◌, Bool, true, false, some, List, [], ◌∷◌, ◌++◌, ◌≡◌, ◌⊎◌, inl, inr, Bool-cases,
  refl, ap, sym, arith, ◌==◌, string_eq, ◌∙◌, if◌then◌else◌, map, show, head?, is_empty, not, join,
}
use project_talos.Domain.{Result, ok}
use project_talos.Detect.Plan.{BuildPlan, Project}
use project_talos.Detect.Node.{PackageJson}
use project_talos.Detect.Node.Shape.{IsPort, node_plan-IsNodePlan}
use project_talos.Detect.GoMain.{go_plan}
use project_talos.Detect.Java.{java_plan}
use project_talos.Detect.Providers.{
  Provider, static_provider, node_provider, go_provider, java_provider, providers, provider_name,
  plan_by, static_plan, plan_named, detect_as,
}
use project_talos.Detect.Choice.{first_that_detects}
use text.Mathlib.TextLemmas.{nil-append, append_assoc}
use project_talos.Detect.Dockerfile.{
  fields, quote, cmd_to_json, Template, static_dockerfile, go_dockerfile, maven_dockerfile,
  gradle_dockerfile, bun_dockerfile, node_dockerfile, node_build_dockerfile, execute_template,
  template_of, generate_dockerfile,
}

abbrev pub concat : List String → String
concat [] = ""
concat (part ∷ parts) = part <> concat parts

-- What follows the port: nothing in the Dockerfile of a static site, else the command, in brackets,
-- and the end of the last line
abbrev pub EndsAs : String → String → Type 0
EndsAs provider tail =
    ((provider ≡ "static") × (tail ≡ "")) ⊎ ((args : String) × (tail ≡ "CMD [" <> (args <> "]\n")))

-- A template whose parts all have a text, that begins with `FROM`, exposes a port and goes to its end
abbrev Exposed : String → ℕ → Template → Type 0
Exposed provider port template =
    (middle : List String) × (last : List String) × (template
      ≡ map some (("FROM " ∷ middle) ++ ("\nEXPOSE " ∷ show port ∷ "\n" ∷ last)))
    × EndsAs provider (concat last)

-- A text that begins with `FROM`, has a line that exposes a port, and goes to its end
abbrev pub Exposes : String → ℕ → String → Type 0
Exposes provider port text =
    (head : String) × (tail : String) × (text
      ≡ "FROM " <> (head <> ("\nEXPOSE " <> (show port <> ("\n" <> tail)))))
    × EndsAs provider tail

concat-append : (xs ys : List String) → concat (xs ++ ys) ≡ concat xs <> concat ys
concat-append [] ys = sym (nil-append (concat ys))
concat-append (x ∷ xs) ys =
    ap (λ s. x <> s) (concat-append xs ys) ∙ sym (append_assoc x (concat xs) (concat ys))

-- A command in brackets, the whole of it in one part
command_ends :
    (provider command : String)
    → (args : String) × (command ≡ "[" <> (args <> "]"))
    → EndsAs provider (concat ("CMD " ∷ command ∷ "\n" ∷ []))
command_ends provider command (args, e) = inr (
  args,
  ap (λ s. "CMD " <> (s <> "\n")) e
      ∙ ap (λ s. "CMD " <> s) (append_assoc "[" (args <> "]") "\n")
      ∙ ap (λ s. "CMD " <> ("[" <> s)) (append_assoc args "]" "\n")
      ∙ sym (append_assoc "CMD " "[" (args <> "]\n")),
)

cmd_to_json-brackets :
    (command : String) → (args : String) × (cmd_to_json command ≡ "[" <> (args <> "]"))
unfolding cmd_to_json
cmd_to_json-brackets command = elim (Bool-cases (command == "")) [
  | inl t ↦ ("\"sh\"", rw t refl)
  | inr f ↦ (join ", " (map quote (fields command)), rw f refl)
]

cmd_ends :
    (provider command : String)
    → EndsAs provider (concat ("CMD " ∷ cmd_to_json command ∷ "\n" ∷ []))
cmd_ends provider command =
    command_ends provider (cmd_to_json command) (cmd_to_json-brackets command)

-- The texts of a template that is whole are all written.
execute_whole : (texts : List String) → execute_template (map some texts) ≡ concat texts
unfolding execute_template
execute_whole [] = refl
execute_whole (text ∷ texts) = ap (λ s. text <> s) (execute_whole texts)

-- What the templates need of a plan
abbrev pub IsPlan : BuildPlan → Type 0
IsPlan plan =
    (plan.provider ≡ "static")
    ⊎ ((plan.provider ≡ "node") × ((command : String) × (plan.install ≡ command ∷ [])))
    ⊎ (plan.provider ≡ "go")
    ⊎ (plan.provider ≡ "java")

if_either {ℓ κ} :
    {A : Type ℓ} (P : A → Type κ) (b : Bool) {x y : A} → P x → P y → P (if b then x else y)
if_either P true hx hy = hx
if_either P false hx hy = hy

list_cases :
    (xs : List String) → (xs ≡ []) ⊎ ((x : String) × (rest : List String) × (xs ≡ x ∷ rest))
list_cases [] = inl refl
list_cases (x ∷ rest) = inr (x, rest, refl)

module _ (plan : BuildPlan) where
  static-Exposed :
      plan.provider ≡ "static" → Exposed plan.provider plan.port (static_dockerfile plan)
  unfolding static_dockerfile
  static-Exposed h = (_ ∷ [], [], refl, inl (h, refl))

  go-Exposed : Exposed plan.provider plan.port (go_dockerfile plan)
  unfolding go_dockerfile
  go-Exposed = (
    _ ∷ _ ∷ _ ∷ _ ∷ _ ∷ _ ∷ _ ∷ _ ∷ _ ∷ _ ∷ [],
    _ ∷ _ ∷ _ ∷ [],
    refl,
    inr (
      "\"./" <> (plan.binary_name <> "\""),
      ap (λ s. "CMD [\"./" <> s) (sym (append_assoc plan.binary_name "\"" "]\n"))
          ∙ append_assoc "CMD [" "\"./" ((plan.binary_name <> "\"") <> "]\n")
          ∙ ap (λ s. "CMD [" <> s) (sym (append_assoc "\"./" (plan.binary_name <> "\"") "]\n")),
    ),
  )

  maven-Exposed : Exposed plan.provider plan.port (maven_dockerfile plan)
  unfolding maven_dockerfile
  maven-Exposed =
      (_ ∷ _ ∷ _ ∷ _ ∷ _ ∷ [], _ ∷ [], refl, inr ("\"java\", \"-jar\", \"app.jar\"", refl))

  gradle-Exposed : Exposed plan.provider plan.port (gradle_dockerfile plan)
  unfolding gradle_dockerfile
  gradle-Exposed =
      (_ ∷ _ ∷ _ ∷ _ ∷ _ ∷ [], _ ∷ [], refl, inr ("\"java\", \"-jar\", \"app.jar\"", refl))

  bun-Exposed : Exposed plan.provider plan.port (bun_dockerfile plan)
  unfolding bun_dockerfile
  bun-Exposed =
      (_ ∷ _ ∷ _ ∷ _ ∷ [], _ ∷ _ ∷ _ ∷ [], refl, cmd_ends plan.provider plan.start_command)

  node-Exposed :
      (command : String)
      → plan.install ≡ command ∷ []
      → Exposed plan.provider plan.port (node_dockerfile plan)
  unfolding node_dockerfile
  node-Exposed command i =
      rw (ap head? i)
        (_ ∷ _ ∷ _ ∷ _ ∷ [], _ ∷ _ ∷ _ ∷ [], refl, cmd_ends plan.provider plan.start_command)

  node_build-Exposed :
      (command : String)
      → plan.install ≡ command ∷ []
      → (step : String) (steps : List String) → plan.build ≡ step ∷ steps
      → Exposed plan.provider plan.port (node_build_dockerfile plan)
  unfolding node_build_dockerfile
  node_build-Exposed command i step steps b =
      rw (ap head? i, ap head? b)
        (
          _ ∷ _ ∷ _ ∷ _ ∷ _ ∷ _ ∷ _ ∷ _ ∷ _ ∷ _ ∷ _ ∷ [],
          _ ∷ _ ∷ _ ∷ [],
          refl,
          cmd_ends plan.provider plan.start_command,
        )

  build_or_not :
      (command : String)
      → plan.install ≡ command ∷ []
      → Exposed plan.provider plan.port
          (if not (is_empty plan.build) then node_build_dockerfile plan else node_dockerfile plan)
  build_or_not command i = elim (list_cases plan.build) [
    | inl none_at_all ↦ rw (ap is_empty none_at_all) (node-Exposed command i)
    | inr (step, steps, b) ↦ rw (ap is_empty b) (node_build-Exposed command i step steps b)
  ]

  template-Exposed : IsPlan plan → Exposed plan.provider plan.port (template_of plan)
  unfolding template_of
  template-Exposed (inl h) = rw (ap (λ s. s == "static") h) (static-Exposed h)
  template-Exposed (inr (inl (h, (command, i)))) =
      rw (ap (λ s. s == "static") h, ap (λ s. s == "node") h)
        (if_either (Exposed plan.provider plan.port) (plan.runtime == "oven/bun:1-alpine")
          bun-Exposed (build_or_not command i))
  template-Exposed (inr (inr (inl h))) =
      rw (ap (λ s. s == "static") h, ap (λ s. s == "node") h, ap (λ s. s == "go") h) go-Exposed
  template-Exposed (inr (inr (inr h))) =
      rw
        (
          ap (λ s. s == "static") h,
          ap (λ s. s == "node") h,
          ap (λ s. s == "go") h,
          ap (λ s. s == "java") h,
        )
        (if_either (Exposed plan.provider plan.port) _ maven-Exposed gradle-Exposed)

  pub generate-Exposes : IsPlan plan → Exposes plan.provider plan.port (generate_dockerfile plan)
  unfolding generate_dockerfile
  generate-Exposes h =
      let (middle, last, e, ends) = template-Exposed h in
      let after = "\nEXPOSE " ∷ show plan.port ∷ "\n" ∷ last in
      (
        concat middle,
        concat last,
        ap execute_template e
            ∙ execute_whole (("FROM " ∷ middle) ++ after)
            ∙ ap (λ s. "FROM " <> s) (concat-append middle after),
        ends,
      )

module _ (unmarshal : String → Result PackageJson) (p : Project) where
  plan_by-IsPlan :
      (asked : Provider) (plan : BuildPlan)
      → plan_by unmarshal asked p ≡ ok plan
      → IsPlan plan × IsPort plan.port
  unfolding static_plan go_plan java_plan
  plan_by-IsPlan static_provider plan h =
      let e : plan.port ≡ 80 = cc in (inl (cc), (omega arith, omega arith))
  plan_by-IsPlan node_provider plan h =
      let (named, install, port) = node_plan-IsNodePlan unmarshal p plan h in
      (inr (inl (named, install)), port)
  plan_by-IsPlan go_provider plan h =
      let e : plan.port ≡ 8080 = cc in (inr (inr (inl (cc))), (omega arith, omega arith))
  plan_by-IsPlan java_provider plan h =
      let e : plan.port ≡ 8080 = ground arith in
      (inr (inr (inr (ground arith))), (omega arith, omega arith))

  plan_named-by :
      (among : List Provider) (name : String) (plan : BuildPlan)
      → plan_named unmarshal among name p ≡ ok plan
      → (asked : Provider) × (plan_by unmarshal asked p ≡ ok plan)
  unfolding plan_named
  plan_named-by [] name plan h = absurd (cc)
  plan_named-by (asked ∷ rest) name plan h = elim (Bool-cases (provider_name asked == name)) [
    | inl t ↦ (asked, ground arith)
    | inr f ↦ plan_named-by rest name plan (ground arith)
  ]

  detect_as-by :
      (name : String) (plan : BuildPlan)
      → detect_as unmarshal p name ≡ ok plan
      → (asked : Provider) × (plan_by unmarshal asked p ≡ ok plan)
  unfolding detect_as
  detect_as-by name plan h = elim (Bool-cases (name == "")) [
    | inl t ↦
        let (asked, _, _, e) = first_that_detects unmarshal p plan (ground arith) in (asked, e)
    | inr f ↦ plan_named-by providers name plan (ground arith)
  ]

  -- Every plan has a port, between 0 and the largest `int`, and whatever port it is then given, the
  -- Dockerfile of the plan begins with `FROM`, has a line that exposes exactly that port, and goes on
  -- to its end: nothing more for a static site, else the line of the command.
  pub detect_as-Exposes :
      (name : String) (plan : BuildPlan) (port : ℕ)
      → detect_as unmarshal p name ≡ ok plan
      → IsPort plan.port
        × Exposes plan.provider port (generate_dockerfile (record plan { port = port }))
  detect_as-Exposes name plan port h =
      let (asked, e) = detect_as-by name plan h in
      let (shape, is_port) = plan_by-IsPlan asked plan e in
      (is_port, generate-Exposes (record plan { port = port }) shape)
