-- ===== src/Handlers.antt =====
-- internal/server/handlers/app.go: the handler of the apps' API. A request's body and path come
-- decoded: `none` where the decoding fails.
pub mod Apps
pub mod Ports
pub mod Access
pub mod Stored
pub mod Services
pub mod Managed
pub mod Buckets
pub mod Required
use project_talos.Prelude.{
  ℕ, String, ◌<>◌, Bool, true, false, not, ◌&&◌, Option, none, some, List, show, trim_space, ◌==◌,
  nat_eq, string_eq, if◌then◌else◌,
}
use project_talos.Domain.{
  App, AppStatus, AccessMode, AppType, BuildMode, RuntimeOwner, EdgeProvider, Error, Result, ok,
  err, is_not_found, effective_container_name,
}
use project_talos.Action.{Action, pure, ◌>>=◌, ◌>>◌}
use project_talos.Proxy.{is_external_service}

pub record CreateAppRequest : Type 0 where
  pub name : String
  pub app_type : AppType
  pub build_mode : BuildMode
  pub project_type : String
  pub repo_url : String
  pub branch : String
  pub internal_port : ℕ
  pub domain : String
  pub image_ref : String
  pub container_name : String
  pub external_target : String
  pub docker_network : String

pub record UpdateAppRequest : Type 0 where
  pub branch : Option String
  pub internal_port : Option ℕ
  pub domain : Option String
  pub image_ref : Option String
  pub container_name : Option String
  pub external_target : Option String
  pub docker_network : Option String
  pub app_type : Option AppType

-- A status with an error's text, with an app, or with nothing that depends on the app
pub data Response : Type 0 where
  error_response : ℕ → String → Response
  app_response : ℕ → App → Response
  plain_response : ℕ → Response

-- `store.AppStore`, the Docker client and the proxy, as the handler calls them
pub record AppServer (W : Type 0) : Type 0 where
  pub get_app : ℕ → Action W (Result App)
  pub create_app : App → Action W (Result App)
  pub update_app : App → Action W (Option Error)
  pub delete_app : ℕ → Action W (Option Error)
  pub next_fallback_port : Action W (Result ℕ)
  pub restart : String → Action W (Option Error)
  -- the pointer may be nil
  pub has_proxy : Bool
  pub update_route : App → String → Action W (Option Error)
  pub remove_route : String → Action W (Option Error)
  pub server_host : String
  pub server_domain : String
  pub edge_provider : EdgeProvider

abbrev pub normalize_app_type : AppType → AppType
normalize_app_type AppType.adopted_container = AppType.adopted_container
normalize_app_type AppType.external_service = AppType.external_service
normalize_app_type _ = AppType.managed

abbrev pub normalize_build_mode : BuildMode → BuildMode
normalize_build_mode BuildMode.external_ci = BuildMode.external_ci
normalize_build_mode _ = BuildMode.talos_build

abbrev pub runtime_owner_for_type : AppType → RuntimeOwner
runtime_owner_for_type AppType.managed = RuntimeOwner.talos
runtime_owner_for_type _ = RuntimeOwner.external

abbrev pub source_for_type : AppType → String
source_for_type AppType.adopted_container = "docker"
source_for_type AppType.external_service = "external"
source_for_type _ = "github"

unfoldable pub validate_create_request : CreateAppRequest → AppType → Option String
validate_create_request req AppType.managed =
    if trim_space req.repo_url == "" then some "repo_url is required for managed apps" else none
validate_create_request req AppType.adopted_container =
    if trim_space req.container_name == ""
    then some "container_name is required for adopted containers"
    else none
validate_create_request req AppType.external_service =
    if trim_space req.external_target == ""
    then some "external_target is required for external services"
    else none
validate_create_request req (AppType.other _) = none

abbrev pub or_else : {A : Type 0} → Option A → A → A
or_else none a = a
or_else (some b) a = b

abbrev pub trim_or_else : Option String → String → String
trim_or_else none a = a
trim_or_else (some b) a = trim_space b

-- The app that `Create` makes of a request, before its access is filled in. The type, the branch and
-- the port are the normalised ones.
unfoldable pub app_of_request : CreateAppRequest → EdgeProvider → App
app_of_request req edge =
    let app_type = normalize_app_type req.app_type in
    record {
      id = 0;
      name = req.name;
      app_type = app_type;
      build_mode = normalize_build_mode req.build_mode;
      project_type = req.project_type;
      runtime_owner = runtime_owner_for_type app_type;
      edge_provider = edge;
      source = source_for_type app_type;
      repo_url = trim_space req.repo_url;
      branch = if req.branch == "" then "main" else req.branch;
      internal_port =
          if not (is_external_service app_type) && req.internal_port == 0
          then 3000
          else req.internal_port;
      image_ref = trim_space req.image_ref;
      domain = trim_space req.domain;
      fallback_port = 0;
      access_mode = AccessMode.port;
      access_url = "";
      status = AppStatus.inactive;
      current_deploy_id = none;
      live_container_name = "";
      container_name = trim_space req.container_name;
      external_target = trim_space req.external_target;
      docker_network = trim_space req.docker_network;
      github_installation_id = none;
      github_repo_id = none;
      registry_url = "";
      created_at = 0;
      updated_at = 0;
    }

abbrev pub with_app_type : Option AppType → App → App
with_app_type none app = app
with_app_type (some t) app =
    let app_type = normalize_app_type t in
    record app {
      app_type = app_type;
      runtime_owner = runtime_owner_for_type app_type;
      source = source_for_type app_type;
    }

unfoldable pub apply_update : UpdateAppRequest → App → App
apply_update req app = with_app_type req.app_type (record app {
  branch = or_else req.branch app.branch;
  internal_port = or_else req.internal_port app.internal_port;
  image_ref = trim_or_else req.image_ref app.image_ref;
  container_name = trim_or_else req.container_name app.container_name;
  external_target = trim_or_else req.external_target app.external_target;
  docker_network = trim_or_else req.docker_network app.docker_network;
  domain = trim_or_else req.domain app.domain;
})

module _ {W : Type 0} (server : AppServer W) where
  open server use {
    get_app, create_app, update_app, delete_app, next_fallback_port, restart, has_proxy,
    update_route, remove_route, server_host, server_domain,
  }

  unfoldable pub with_port : App → Result ℕ → Result App
  with_port app (err e) = err e
  with_port app (ok port) = ok (record app {
    fallback_port = port;
    access_url =
        "http://"
        <> (if server_domain == "" then server_host else server_domain)
        <> ":"
        <> show port;
  })

  unfoldable pub access_by_type : App → AppType → Action W (Result App)
  unfolding with_port
  access_by_type app AppType.managed = do r ← next_fallback_port; pure (with_port app r)
  access_by_type app AppType.external_service =
      pure (ok (record app { access_url = app.external_target }))
  access_by_type app _ = pure (ok app)

  -- `applyAccessFields`
  unfoldable pub apply_access_fields : App → Action W (Result App)
  unfolding access_by_type
  apply_access_fields app =
      let app' = record app { fallback_port = 0; access_url = ""; access_mode = AccessMode.port } in
      if app.domain == ""
      then access_by_type app' app.app_type
      else pure (
          ok (record app' {
            access_mode = AccessMode.domain;
            access_url = "https://" <> app.domain;
          }))
