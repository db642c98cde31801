-- ===== src/Engine/Finish.antt =====
-- internal/deploy/engine.go: the events, and the two ways in which a deploy is closed after it has
-- been started. Log lines are left out.
use project_talos.Prelude.{ℕ, String, ◌<>◌, some, show, ◌==◌, string_eq, if◌then◌else◌}
use project_talos.Domain.{
  App, AppStatus, Deploy, DeployStatus, DeployEvent, Error, not_found, deploy_in_progress, message,
  wrap, Result, ok, err,
}
use project_talos.Action.{Action, pure, effect, ◌>>=◌, ◌>>◌}
use project_talos.Engine.Interface.{Environment}

-- `err.Error()`
unfoldable pub error_text : Error → String
error_text not_found = "not found"
error_text Error.conflict = "conflict"
error_text deploy_in_progress = "deploy already in progress"
error_text Error.unauthorized = "unauthorized"
error_text Error.invalid_input = "invalid input"
error_text (message m) = m
error_text (wrap context e) = context <> ": " <> error_text e

unfoldable pub staging_name : App → Deploy → String
staging_name app d = "talos-" <> app.name <> "-" <> show d.id

unfoldable pub live_name : App → String
live_name app =
    if app.live_container_name == "" then "talos-" <> app.name else app.live_container_name

module _ {W : Type 0} (env : Environment W) where
  open env use {update_app, update_deploy, create_deploy_event, now, publish}

  -- `emitEvent`: an event that is not stored is not published.
  unfoldable pub publish_stored : Result DeployEvent → Action W (Unit {0})
  publish_stored (err _) = pure tt
  publish_stored (ok event) = effect (publish event)

  unfoldable pub emit_event : ℕ → String → String → String → Action W (Unit {0})
  unfolding publish_stored
  emit_event deploy_id level step text = do
    r ← create_deploy_event (record {
      id = 0;
      deploy_id = deploy_id;
      timestamp = 0;
      level = level;
      step = step;
      message = text;
    })
    publish_stored r

  -- `failDeploy`
  unfoldable pub fail_deploy : App → Deploy → String → Action W (App × Deploy)
  fail_deploy app d reason = do
    completed ← now
    let d' = record d { completed_at = some completed; status = DeployStatus.failed; logs = reason }
    update_deploy d'
    emit_event d.id "error" "finalize" ("deploy failed: " <> reason)
    pure (app, d')

  unfoldable pub finalize : App → Deploy → Action W (App × Deploy)
  finalize app d = do
    completed ← now
    let d' = record d { completed_at = some completed; status = DeployStatus.success }
    update_deploy d'
    let app' = record app {
      status = AppStatus.active;
      image_ref = d.image_ref;
      current_deploy_id = some d.id;
      live_container_name = staging_name app d;
    }
    update_app app'
    emit_event d.id "info" "finalize" "deploy completed successfully"
    pure (app', d')
