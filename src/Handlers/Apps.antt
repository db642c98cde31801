-- ===== src/Handlers/Apps.antt =====
-- internal/server/handlers/app.go: the handlers, each from its request to its response.
use project_talos.Prelude.{ℕ, String, Option, none, some, ◌==◌, string_eq, if◌then◌else◌}
use project_talos.Domain.{
  App, AppType, Error, Result, ok, err, is_not_found, effective_container_name,
}
use project_talos.Action.{Action, pure, ◌>>=◌, ◌>>◌}
use project_talos.Proxy.{is_external_service}
use project_talos.Handlers.{
  AppServer, Response, error_response, app_response, plain_response, CreateAppRequest,
  UpdateAppRequest, normalize_app_type, validate_create_request, app_of_request, apply_update,
  apply_access_fields,
}

module _ {W : Type 0} (server : AppServer W) where
  open server use {
    get_app, create_app, update_app, delete_app, restart, has_proxy, update_route, remove_route,
    edge_provider,
  }

  -- `syncNonManagedRoute`, with a proxy
  unfoldable pub sync_route : App → AppType → Action W (Option Error)
  sync_route app AppType.managed = pure none
  sync_route app AppType.adopted_container =
      if app.domain == ""
      then remove_route app.name
      else update_route app (effective_container_name app)
  sync_route app AppType.external_service =
      if app.domain == "" then remove_route app.name else update_route app ""
  sync_route app (AppType.other _) = if app.domain == "" then remove_route app.name else pure none

  unfoldable pub sync_non_managed_route : App → Action W (Option Error)
  unfolding sync_route
  sync_non_managed_route app = if has_proxy then sync_route app app.app_type else pure none

  unfoldable pub respond_synced : ℕ → String → App → Option Error → Response
  respond_synced code text app none = app_response code app
  respond_synced code text app (some _) = error_response 500 text

  unfoldable pub created_app : Result App → Action W Response
  unfolding respond_synced
  created_app (err _) = pure (error_response 500 "failed to create app")
  created_app (ok app) = do
    r ← sync_non_managed_route app
    pure (respond_synced 201 "failed to configure route" app r)

  unfoldable pub create_with_access : Result App → Action W Response
  unfolding created_app
  create_with_access (err _) = pure (error_response 500 "failed to assign port")
  create_with_access (ok app) = do r ← create_app app; created_app r

  unfoldable pub create_valid : CreateAppRequest → Option String → Action W Response
  unfolding create_with_access
  create_valid req (some text) = pure (error_response 400 text)
  create_valid req none = do
    r ← apply_access_fields server (app_of_request req edge_provider)
    create_with_access r

  -- `Create`
  unfoldable pub create : Option CreateAppRequest → Action W Response
  unfolding create_valid
  create none = pure (error_response 400 "invalid request body")
  create (some req) =
      if req.name == ""
      then pure (error_response 400 "name is required")
      else create_valid req (validate_create_request req (normalize_app_type req.app_type))

  unfoldable pub missing : Error → Response
  missing e =
      if is_not_found e
      then error_response 404 "app not found"
      else error_response 500 "failed to get app"

  unfoldable pub stored_update : App → Option Error → Action W Response
  unfolding respond_synced
  stored_update app (some _) = pure (error_response 500 "failed to update app")
  stored_update app none = do
    r ← sync_non_managed_route app
    pure (respond_synced 200 "failed to update route" app r)

  unfoldable pub update_with_access : Result App → Action W Response
  unfolding stored_update
  update_with_access (err _) = pure (error_response 500 "failed to assign port")
  update_with_access (ok app) = do r ← update_app app; stored_update app r

  unfoldable pub update_found : Option UpdateAppRequest → Result App → Action W Response
  unfolding update_with_access missing
  update_found body (err e) = pure (missing e)
  update_found none (ok app) = pure (error_response 400 "invalid request body")
  update_found (some req) (ok app) = do
    r ← apply_access_fields server (apply_update req app)
    update_with_access r

  -- `Update`
  unfoldable pub update : Option ℕ → Option UpdateAppRequest → Action W Response
  unfolding update_found
  update none body = pure (error_response 400 "invalid app id")
  update (some id) body = do r ← get_app id; update_found body r

  unfoldable pub deleted : App → Option Error → Action W Response
  deleted app (some _) = pure (error_response 500 "failed to delete app")
  deleted app none =
      if has_proxy
      then remove_route app.name >> pure (plain_response 204)
      else pure (plain_response 204)

  unfoldable pub delete_found : ℕ → Result App → Action W Response
  unfolding deleted missing
  delete_found id (err e) = pure (missing e)
  delete_found id (ok app) = do r ← delete_app id; deleted app r

  -- `Delete`
  unfoldable pub delete : Option ℕ → Action W Response
  unfolding delete_found
  delete none = pure (error_response 400 "invalid app id")
  delete (some id) = do r ← get_app id; delete_found id r

  unfoldable pub restarted : Option Error → Response
  restarted (some _) = error_response 500 "failed to restart container"
  restarted none = plain_response 200

  unfoldable pub restart_found : Result App → Action W Response
  unfolding restarted missing
  restart_found (err e) = pure (missing e)
  restart_found (ok app) =
      if is_external_service app.app_type
      then pure (error_response 400 "external services cannot be restarted")
      else if effective_container_name app == ""
      then pure (error_response 400 "no container is associated with this app")
      else (do r ← restart (effective_container_name app); pure (restarted r))

  -- `Restart`
  unfoldable pub restart_app : Option ℕ → Action W Response
  unfolding restart_found
  restart_app none = pure (error_response 400 "invalid app id")
  restart_app (some id) = do r ← get_app id; restart_found r
