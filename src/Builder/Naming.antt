-- ===== src/Builder/Naming.antt =====
-- internal/builder/builder.go: the names that are made of an app and a commit.
use Prim.Native.String.{len, slice}
use project_talos.Prelude.{
  ℕ, ◌-◌, String, ◌<>◌, none, some, List, ◌∷◌, [], ltb, leb, ◌==◌, string_eq, if◌then◌else◌, show,
  join_path, split, has_suffix, trim_prefix, cut_prefix,
}
use project_talos.Domain.{App}

unfoldable pub short_commit_sha : String → String
short_commit_sha sha =
    if leb 7 (len sha) then slice sha 0 7 else if sha == "" then "manual" else sha

unfoldable pub effective_plan_port : ℕ → ℕ → ℕ
effective_plan_port detected configured = if ltb 0 configured then configured else detected

unfoldable pub build_auth_url : String → String → String
build_auth_url repo_url token = elim (cut_prefix repo_url "https://") [
  | some rest ↦ "https://x-access-token:" <> token <> "@" <> rest
  | none ↦ repo_url
]

-- `strings.TrimSuffix(s, ".git")`
trim_git : String → String
trim_git s = if has_suffix s ".git" then slice s 0 (len s - 4) else s

image_name : App → String → String → List String → String
unfolding trim_git
image_name app registry sha (owner ∷ repo ∷ _) =
    registry <> "/" <> owner <> "/" <> trim_git repo <> ":" <> sha
image_name app registry sha _ = registry <> "/" <> app.name <> ":" <> sha

unfoldable pub build_image_ref : App → String → String
unfolding image_name short_commit_sha
build_image_ref app commit_sha =
    let registry = if app.registry_url == "" then "ghcr.io" else app.registry_url in
    image_name app registry (short_commit_sha commit_sha)
      (split b'/' (trim_prefix app.repo_url "https://github.com/"))

-- The folder of a clone
unfoldable pub clone_dir : String → App → String → String
unfolding short_commit_sha
clone_dir data_dir app commit_sha =
    join_path (data_dir ∷ "builds" ∷ (show app.id <> "-" <> short_commit_sha commit_sha) ∷ [])
