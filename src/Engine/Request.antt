-- ===== src/Engine/Request.antt =====
-- internal/deploy/engine.go: how a deploy or a rollback is accepted. `deploy` and `rollback` return
-- the app and the deploy that the goroutine starts with, or an error.
use project_talos.Prelude.{ℕ, String, Bool, true, false, Option, none, some, if◌then◌else◌}
use project_talos.Domain.{
  App, AppType, Deploy, DeployStatus, Error, deploy_in_progress, message, wrap, Result, ok, err,
  eq_not_found,
}
use project_talos.Action.{Action, pure, ◌>>=◌}
use project_talos.Engine.Interface.{Environment}

abbrev pub is_managed : AppType → Bool
is_managed AppType.managed = true
is_managed _ = false

-- `Status == Running || Status == Pending`
abbrev pub is_in_progress : DeployStatus → Bool
is_in_progress DeployStatus.running = true
is_in_progress DeployStatus.pending = true
is_in_progress _ = false

abbrev pub new_deploy : ℕ → String → String → String → String → Option ℕ → Deploy
new_deploy app_id image_ref commit_sha branch triggered_by rollback_of_id = record {
  id = 0;
  app_id = app_id;
  image_ref = image_ref;
  commit_sha = commit_sha;
  branch = branch;
  status = DeployStatus.pending;
  container_id = "";
  health_status = "";
  logs = "";
  env_snapshot = "";
  started_at = none;
  completed_at = none;
  triggered_by = triggered_by;
  rollback_of_id = rollback_of_id;
  created_at = 0;
}

unfoldable pub created : App → String → Result Deploy → Result (App × Deploy)
created app context (err e) = err (wrap context e)
created app context (ok d) = ok (app, d)

-- The test on the latest deploy: an error to return, or nothing.
unfoldable pub running_deploy_error : Result Deploy → Option Error
running_deploy_error (err e) = if eq_not_found e then none else some (wrap "check running deploy" e)
running_deploy_error (ok latest) =
    if is_in_progress latest.status then some deploy_in_progress else none

module _ {W : Type 0} (env : Environment W) where
  open env use {get_app, create_deploy, get_latest_deploy, get_latest_successful_deploy}

  unfoldable pub enqueue : App → Deploy → Option Error → Action W (Result (App × Deploy))
  unfolding created
  enqueue app d (some e) = pure (err e)
  enqueue app d none = do r ← create_deploy d; pure (created app "create deploy" r)

  unfoldable pub deploy_app :
      String → String → String → String → ℕ → Result App → Action W (Result (App × Deploy))
  unfolding enqueue
  deploy_app image_ref commit_sha branch triggered_by app_id (err e) = pure (err (wrap "get app" e))
  deploy_app image_ref commit_sha branch triggered_by app_id (ok app) =
      if is_managed app.app_type
      then (do
        latest ← get_latest_deploy app_id
        enqueue app (new_deploy app_id image_ref commit_sha branch triggered_by none)
            (running_deploy_error latest))
      else pure (err (message "deploys are only supported for managed apps"))

  -- `Deploy`; its goroutine is `execute_queued` on what it returns.
  unfoldable pub deploy : ℕ → String → String → String → String → Action W (Result (App × Deploy))
  unfolding deploy_app
  deploy app_id image_ref commit_sha branch triggered_by = do
    r ← get_app app_id
    deploy_app image_ref commit_sha branch triggered_by app_id r

  unfoldable pub roll_back_to : App → ℕ → Result Deploy → Action W (Result (App × Deploy))
  unfolding created
  roll_back_to app app_id (err e) = pure (err (wrap "get last successful deploy" e))
  roll_back_to app app_id (ok prev) = do
    r ← create_deploy (new_deploy app_id prev.image_ref "" prev.branch "rollback" (some prev.id))
    pure (created app "create rollback deploy" r)

  unfoldable pub rollback_app : ℕ → Result App → Action W (Result (App × Deploy))
  unfolding roll_back_to
  rollback_app app_id (err e) = pure (err (wrap "get app" e))
  rollback_app app_id (ok app) =
      if is_managed app.app_type
      then (do prev ← get_latest_successful_deploy app_id; roll_back_to app app_id prev)
      else pure (err (message "rollbacks are only supported for managed apps"))

  -- `Rollback`; its goroutine is `execute`, with a pull.
  unfoldable pub rollback : ℕ → Action W (Result (App × Deploy))
  unfolding rollback_app
  rollback app_id = do r ← get_app app_id; rollback_app app_id r
