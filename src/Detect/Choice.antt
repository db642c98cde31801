-- ===== src/Detect/Choice.antt =====
-- Which provider plans a project, and when none does.
use project_talos.Prelude.{
  String, true, false, List, [], ◌∷◌, ◌≡◌, ◌↔◌, ◌⊎◌, ◌≢◌, ap, ◌∙◌, refl, arith, Bool-cases, inl,
  inr, any, All,
}
use project_talos.Domain.{Result, ok, err}
use project_talos.Detect.Plan.{BuildPlan, Project, file_exists}
use project_talos.Detect.Node.{PackageJson, node_detect, node_plan}
use project_talos.Detect.Node.Shape.{node_plan-IsNodePlan}
use project_talos.Detect.GoMain.{go_detect, go_plan}
use project_talos.Detect.Java.{java_detect, java_plan}
use project_talos.Detect.Providers.{
  Provider, static_provider, node_provider, go_provider, java_provider, provider_name, detects,
  providers, plan_by, named_error, detect_among, detect, detect_as, unsupported, static_detect,
  static_plan,
}

-- The providers that are asked before one
abbrev pub before_provider : Provider → List Provider
before_provider static_provider = []
before_provider node_provider = static_provider ∷ []
before_provider go_provider = static_provider ∷ node_provider ∷ []
before_provider java_provider = static_provider ∷ node_provider ∷ go_provider ∷ []

abbrev pub sentinels : List String
sentinels =
    "index.html" ∷ "package.json" ∷ "go.mod" ∷ "pom.xml" ∷ "build.gradle" ∷ "build.gradle.kts" ∷ []

module _ (unmarshal : String → Result PackageJson) (p : Project) where
  planned-provider :
      (asked : Provider) (plan : BuildPlan)
      → plan_by unmarshal asked p ≡ ok plan
      → plan.provider ≡ provider_name asked
  unfolding static_plan node_plan go_plan java_plan
  planned-provider static_provider plan h = cc
  planned-provider node_provider plan h = (node_plan-IsNodePlan unmarshal p plan h).0
  planned-provider go_provider plan h = cc
  planned-provider java_provider plan h = ground arith

  named_error-ok :
      (asked : Provider) (r : Result BuildPlan) (plan : BuildPlan)
      → named_error unmarshal asked r ≡ ok plan
      → r ≡ ok plan
  unfolding named_error
  named_error-ok asked (ok found) plan h = h
  named_error-ok asked (err e) plan h = cc

  plan_named-by :
      (asked : Provider) → detect_as unmarshal p (provider_name asked) ≡ plan_by unmarshal asked p
  unfolding detect_as
  plan_named-by static_provider = refl
  plan_named-by node_provider = refl
  plan_named-by go_provider = refl
  plan_named-by java_provider = refl

  -- The plan comes from the first provider of a list that detects the project.
  ChosenFrom : List Provider → BuildPlan → Type 0
  ChosenFrom [] plan = ⊥
  ChosenFrom (asked ∷ rest) plan =
      ((detects asked p ≡ true) × (plan_by unmarshal asked p ≡ ok plan))
      ⊎ ((detects asked p ≡ false) × ChosenFrom rest plan)

  detect_among-chosen :
      (asked : List Provider) (plan : BuildPlan)
      → detect_among unmarshal asked p ≡ ok plan
      → ChosenFrom asked plan
  unfolding detect_among ChosenFrom
  detect_among-chosen [] plan h = absurd (cc)
  detect_among-chosen (asked ∷ rest) plan h = elim (Bool-cases (detects asked p)) [
    | inl t ↦ inl (t, named_error-ok asked (plan_by unmarshal asked p) plan (ground arith))
    | inr f ↦ inr (f, detect_among-chosen rest plan (ground arith))
  ]

  pub first_that_detects :
      (plan : BuildPlan)
      → detect unmarshal p ≡ ok plan
      → (asked : Provider) × All (λ earlier. detects earlier p ≡ false) (before_provider asked)
        × (detects asked p ≡ true)
        × (plan_by unmarshal asked p ≡ ok plan)
  unfolding detect ChosenFrom
  first_that_detects plan h = elim (detect_among-chosen providers plan h) [
    | inl (t, e) ↦ (static_provider, tt, t, e)
    | inr (s, inl (t, e)) ↦ (node_provider, (s, tt), t, e)
    | inr (s, inr (n, inl (t, e))) ↦ (go_provider, (s, (n, tt)), t, e)
    | inr (s, inr (n, inr (g, inl (t, e)))) ↦ (java_provider, (s, (n, (g, tt))), t, e)
    | inr (s, inr (n, inr (g, inr (j, bottom)))) ↦ absurd bottom
  ]

  named_error-not :
      (asked : Provider) (r : Result BuildPlan) → named_error unmarshal asked r ≢ err unsupported
  unfolding named_error
  named_error-not asked (ok plan) h = cc
  named_error-not asked (err e) h = cc

  -- Automatic detection plans a project with the first provider that detects it, and naming that
  -- provider gives the same plan.
  pub detect-detect_as :
      (plan : BuildPlan)
      → detect unmarshal p ≡ ok plan
      → (asked : Provider) × All (λ earlier. detects earlier p ≡ false) (before_provider asked)
        × (detects asked p ≡ true)
        × (plan.provider ≡ provider_name asked)
        × (detect_as unmarshal p plan.provider ≡ ok plan)
  detect-detect_as plan h =
      let (asked, before, t, e) = first_that_detects plan h in
      let named = planned-provider asked plan e in
      (asked, before, t, named, ap (detect_as unmarshal p) named ∙ plan_named-by asked ∙ e)

  -- Detection says that a project's type is not supported exactly when none of the files that the
  -- message names is in its folder.
  pub detect-unsupported :
      (detect unmarshal p ≡ err unsupported) ↔ (any (λ f. file_exists f p) sentinels ≡ false)
  unfolding detect detect_among static_detect node_detect go_detect java_detect
  detect-unsupported = (
    λ h. ground (
      arith,
      h,
      named_error-not static_provider (static_plan p),
      named_error-not node_provider (node_plan unmarshal p),
      named_error-not go_provider (go_plan p),
      named_error-not java_provider (java_plan p),
    ),
    λ h. ground arith,
  )
