-- ===== src/Engine/Execute.antt =====
-- internal/deploy/engine.go: `execute`, cut at its early returns. Each stage is the code up to the
-- next return and ends in a call of the next stage, so the last stage stands first. A stage returns
-- the app and the deploy as the code has changed them.
use project_talos.Prelude.{
  String, ◌<>◌, Bool, true, false, not, ◌&&◌, ◌||◌, Option, none, some, List, [], ◌∷◌, show, ltb,
  ◌==◌, string_eq, if◌then◌else◌,
}
use project_talos.Domain.{App, Deploy, DeployStatus, Error, Result, ok, err}
use project_talos.Action.{Action, pure, ◌>>=◌, ◌>>◌}
use project_talos.Proxy.{
  is_port, is_domain, requires_exclusive_switch, external_networks, external_labels,
}
use project_talos.Engine.Interface.{Environment, ContainerConfig}
use project_talos.Engine.EnvVars.{validate_env_vars, collect_env_vars}
use project_talos.Engine.Finish.{
  error_text, staging_name, live_name, emit_event, fail_deploy, finalize,
}

abbrev pub with_snapshot : Deploy → Option String → Deploy
with_snapshot d none = d
with_snapshot d (some text) = record d { env_snapshot = text }

module _ {W : Type 0} (env : Environment W) where
  open env use {
    get_app_env_vars_snapshot, pull_image, stop_and_remove, start_container_with_config,
    wait_for_health, manager, update_route, update_deploy, marshal_snapshot, now,
  }

  unfoldable pub requires_exclusive_cutover : App → Bool
  requires_exclusive_cutover app = is_port app.access_mode || requires_exclusive_switch manager app

  unfoldable pub report_stop : Deploy → Option Error → Action W (Unit {0})
  report_stop d (some e) =
      emit_event env d.id "warn" "stop_old" ("stop old container: " <> error_text e)
  report_stop d none = emit_event env d.id "info" "stop_old" "old container stopped"

  -- Stop the old live container, once the new one is healthy and routed.
  unfoldable pub stop_old : App → Deploy → Action W (App × Deploy)
  unfolding report_stop
  stop_old app d =
      if not (live_name app == staging_name app d) && not (requires_exclusive_cutover app)
      then (do
        emit_event env d.id "info" "stop_old" ("stopping old container " <> live_name app)
        r ← stop_and_remove (live_name app)
        report_stop d r
        finalize env app d)
      else finalize env app d

  unfoldable pub routed : App → Deploy → Option Error → Action W (App × Deploy)
  routed app d (some e) = do
    emit_event env d.id "error" "route_update" ("route update failed: " <> error_text e)
    stop_and_remove (staging_name app d)
    fail_deploy env app d ("update route: " <> error_text e)
  routed app d none = do
    emit_event env d.id "info" "route_update" "route updated successfully"
    stop_old app d

  unfoldable pub route : App → Deploy → Action W (App × Deploy)
  unfolding routed
  route app d =
      if is_domain app.access_mode
      then (if requires_exclusive_switch manager app
          then (do
            emit_event env d.id "info" "route_update"
                "external proxy mode uses container labels; new container is now serving the custom domain"
            stop_old app d)
          else (do
            emit_event env d.id "info" "route_update"
                ("updating traefik route to " <> staging_name app d)
            r ← update_route app (staging_name app d)
            routed app d r))
      else (do
        emit_event env d.id "info" "route_update"
            "fallback port mode uses direct host port binding; no proxy route update required"
        stop_old app d)

  -- The health check failed: the staging container goes.
  unfoldable pub auto_rollback : App → Deploy → Error → Action W (App × Deploy)
  auto_rollback app d e = do
    emit_event env d.id "error" "health_check" ("health check failed: " <> error_text e)
    emit_event env d.id "info" "auto_rollback"
        "stopping staging container, live container preserved"
    stop_and_remove (staging_name app d)
    completed ← now
    let d' = record d {
      health_status = "unhealthy";
      completed_at = some completed;
      status = DeployStatus.auto_rollback;
      logs = "health check failed, auto-rolled back: " <> error_text e;
    }
    update_deploy d'
    emit_event env d.id "info" "auto_rollback" "auto-rollback complete, previous version still live"
    pure (app, d')

  unfoldable pub checked : App → Deploy → Option Error → Action W (App × Deploy)
  checked app d (some e) = auto_rollback app d e
  checked app d none = do
    emit_event env d.id "info" "health_check" "health check passed"
    route app (record d { health_status = "healthy" })

  unfoldable pub started : App → Deploy → Result String → Action W (App × Deploy)
  unfolding checked
  started app d (err e) = do
    emit_event env d.id "error" "start" ("start failed: " <> error_text e)
    fail_deploy env app d ("start container: " <> error_text e)
  started app d (ok container_id) = do
    emit_event env d.id "info" "start" ("staging container started: " <> container_id)
    emit_event env d.id "info" "health_check" "waiting for health check (30s timeout)"
    r ← wait_for_health container_id 30
    checked app (record d { container_id = container_id }) r

  unfoldable pub report_cutover : Deploy → Option Error → Action W (Unit {0})
  report_cutover d (some e) =
      emit_event env d.id "warn" "stop_old" ("stop old container: " <> error_text e)
  report_cutover d none = pure tt

  -- Port mode and external labels need the old container gone before the new one starts.
  unfoldable pub stop_for_cutover : App → Deploy → Action W (Unit {0})
  unfolding report_cutover
  stop_for_cutover app d =
      if requires_exclusive_cutover app && not (live_name app == "")
      then (do
        emit_event env d.id "info" "stop_old" (
            "stopping old container "
            <> live_name app
            <> " "
            <> (if is_domain app.access_mode
                then "before switching external proxy labels"
                else "before binding fallback port"))
        r ← stop_and_remove (live_name app)
        report_cutover d r)
      else pure tt

  -- The proxy's labels have other keys than the three that are set first.
  unfoldable pub container_config : App → Deploy → List String → ContainerConfig
  container_config app d env_vars = record {
    name = staging_name app d;
    image_ref = d.image_ref;
    internal_port = app.internal_port;
    env = env_vars;
    ports =
        if is_port app.access_mode && ltb 0 app.fallback_port
        then (show app.fallback_port <> ":" <> show app.internal_port) ∷ []
        else [];
    networks = external_networks manager app;
    labels = ("managed-by", "talos") ∷ ("talos-app", app.name) ∷ external_labels manager app;
  }

  unfoldable pub start : App → Deploy → Action W (App × Deploy)
  unfolding started
  start app d = do
    env_vars ← collect_env_vars env app
    emit_event env d.id "info" "start" ("starting staging container " <> staging_name app d)
    stop_for_cutover app d
    r ← start_container_with_config (container_config app d env_vars)
    started app d r

  unfoldable pub pulled : App → Deploy → Option Error → Action W (App × Deploy)
  pulled app d (some e) = do
    emit_event env d.id "error" "pull" ("pull failed: " <> error_text e)
    fail_deploy env app d ("pull image: " <> error_text e)
  pulled app d none = do emit_event env d.id "info" "pull" "image pulled successfully"; start app d

  unfoldable pub pull : App → Deploy → Bool → Action W (App × Deploy)
  unfolding pulled
  pull app d true = do
    emit_event env d.id "info" "pull" "skipping image pull because the image was built locally"
    start app d
  pull app d false = do
    emit_event env d.id "info" "pull" ("pulling image " <> d.image_ref)
    r ← pull_image d.image_ref
    pulled app d r

  unfoldable pub validated : App → Deploy → Bool → Option Error → Action W (App × Deploy)
  validated app d skip_pull (some e) = do
    emit_event env d.id "error" "start" ("validation failed: " <> error_text e)
    fail_deploy env app d (error_text e)
  validated app d skip_pull none = do
    r ← get_app_env_vars_snapshot app.id
    pull app (with_snapshot d (marshal_snapshot r)) skip_pull

  unfoldable pub execute : App → Deploy → Bool → Action W (App × Deploy)
  unfolding validated
  execute app d skip_pull = do
    started_at ← now
    let d' = record d { started_at = some started_at; status = DeployStatus.running }
    update_deploy d'
    emit_event env d.id "info" "start"
        ("deploy started for " <> app.name <> " with image " <> d.image_ref)
    r ← validate_env_vars env app
    validated app d' skip_pull r
