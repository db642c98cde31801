-- ===== src/Engine/Queue.antt =====
-- internal/deploy/engine.go: what the goroutine of a deploy does before `execute`.
use Prim.Native.String.{len, slice}
use project_talos.Prelude.{
  ℕ, String, ◌<>◌, Bool, true, false, ◌&&◌, Option, none, some, leb, ◌==◌, string_eq, if◌then◌else◌,
}
use project_talos.Domain.{App, BuildMode, Deploy, Error, message, wrap, Result, ok, err}
use project_talos.Action.{Action, pure, ◌>>=◌, ◌>>◌}
use project_talos.Engine.Interface.{Environment, CloneAndBuildResult}
use project_talos.Engine.Finish.{error_text, emit_event, fail_deploy}
use project_talos.Engine.Execute.{execute}

-- `shortSHA`
unfoldable pub short_sha : String → String
short_sha sha = if leb 7 (len sha) then slice sha 0 7 else sha

abbrev pub is_talos_build : BuildMode → Bool
is_talos_build BuildMode.talos_build = true
is_talos_build _ = false

abbrev pub not_connected : Error
not_connected =
    message "GitHub App is not connected — go to Settings → GitHub to set it up, then try again"

module _ {W : Type 0} (env : Environment W) where
  open env use {
    update_deploy, has_builder, has_gh_client, new_builder, clone_and_build, parse_repo_full_name,
    resolve_branch_head_sha,
  }

  -- `getBuilder`: whether it returns a builder.
  unfoldable pub get_builder : Action W Bool
  get_builder w =
      if has_builder w
      then (true, w)
      else if has_gh_client w
      then (true, new_builder w)
      else (false, w)

  unfoldable pub resolve_at : ℕ → String → Result (String × String) → Action W (Result String)
  resolve_at installation branch (err e) = pure (err (wrap "invalid repository URL" e))
  resolve_at installation branch (ok (owner, repo)) = do
    r ← resolve_branch_head_sha installation owner repo branch
    pure (elim r [ ok sha ↦ ok sha | err e ↦ err (wrap ("resolve branch HEAD for " <> branch) e) ])

  unfoldable pub resolve_for : App → String → Option ℕ → Action W (Result String)
  resolve_for app branch none =
      pure (err (message "this app is not connected to a GitHub installation"))
  resolve_for app branch (some installation) =
      let branch' = if branch == "" then app.branch else branch in
      if branch' == ""
      then pure (err (message "no branch configured for this app"))
      else resolve_at installation branch' (parse_repo_full_name app.repo_url)

  unfoldable pub resolve_build_commit_sha : App → String → Action W (Result String)
  unfolding resolve_for resolve_at
  resolve_build_commit_sha app branch w =
      if has_gh_client w
      then resolve_for app branch app.github_installation_id w
      else (err not_connected, w)

  -- The deploy as the code has changed it, and its error.
  unfoldable pub built : Deploy → Result CloneAndBuildResult → Action W (Deploy × Option Error)
  built d (err e) = do
    emit_event env d.id "error" "build" ("build failed: " <> error_text e)
    pure (d, some (wrap "build failed" e))
  built d (ok result) = do
    let d' = record d { image_ref = result.image_ref }
    update_deploy d'
    emit_event env d.id "info" "build" ("image built successfully: " <> d'.image_ref)
    pure (d', none)

  unfoldable pub build : App → Deploy → Action W (Deploy × Option Error)
  unfolding built
  build app d = do
    emit_event env d.id "info" "build" "starting repository clone and image build"
    r ← clone_and_build app d.commit_sha (emit_event env d.id)
    built d r

  unfoldable pub resolved : App → Deploy → Result String → Action W (Deploy × Option Error)
  unfolding build
  resolved app d (err e) = do
    emit_event env d.id "error" "resolve_commit" (error_text e)
    pure (d, some e)
  resolved app d (ok sha) = do
    let d' = record d { commit_sha = sha }
    update_deploy d'
    emit_event env d.id "info" "resolve_commit" ("resolved commit " <> short_sha sha)
    build app d'

  unfoldable pub with_builder : App → Deploy → Bool → Action W (Deploy × Option Error)
  unfolding resolved
  with_builder app d false = do
    emit_event env d.id "error" "build_setup" "GitHub App is not connected"
    pure (d, some not_connected)
  with_builder app d true =
      if app.repo_url == ""
      then (do
        emit_event env d.id "error" "build_setup" "repository URL is not configured"
        pure (
          d,
          some (message "no repository URL set for this app — edit the app settings to add one"),
        ))
      else if d.commit_sha == ""
      then (do
        emit_event env d.id "info" "resolve_commit" ("resolving branch HEAD for " <> d.branch)
        r ← resolve_build_commit_sha app d.branch
        resolved app d r)
      else build app d

  unfoldable pub prepare_talos_build : App → Deploy → Action W (Deploy × Option Error)
  unfolding with_builder
  prepare_talos_build app d = do available ← get_builder; with_builder app d available

  unfoldable pub prepared : App → Deploy × Option Error → Action W (App × Deploy)
  prepared app (d, some e) = fail_deploy env app d (error_text e)
  prepared app (d, none) = execute env app d true

  unfoldable pub build_or_pull : App → Deploy → Action W (App × Deploy)
  unfolding prepared
  build_or_pull app d =
      if is_talos_build app.build_mode && d.image_ref == ""
      then (do r ← prepare_talos_build app d; prepared app r)
      else execute env app d false

  unfoldable pub execute_queued : App → Deploy → Action W (App × Deploy)
  unfolding build_or_pull
  execute_queued app d = do emit_event env d.id "info" "queue" "deploy queued"; build_or_pull app d
