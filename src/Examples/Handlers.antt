-- ===== src/Examples/Handlers.antt =====
-- The apps' handler on the database of the app `shop`.
use project_talos.Prelude.{some, Bool, ◌≡◌, refl, none, All, String, List, [], ◌∷◌}
use project_talos.Domain.{AppType, AppStatus, BuildMode, App, EdgeProvider, ok}
use project_talos.Store.{Database}
use project_talos.Store.Apps.{get_app, create_app, update_app, delete_app, next_fallback_port}
use project_talos.Handlers.{AppServer, apply_access_fields, CreateAppRequest}
use project_talos.Handlers.Access.{IsReachable, host_of, address_agrees}
use project_talos.Action.{pure}
use project_talos.Domain.Service.{Service, AppEnvVar, postgres}
use project_talos.Handlers.Services.{CreateServiceRequest, ServiceStore, set_env_var}
use project_talos.Store.EnvVars.{set_app_env_var}
use project_talos.Handlers.Required.{IsOptional, set_env_var-IsOptional}
use project_talos.Examples.Services.{idle, database_service}
use project_talos.Examples.Values.{shop, sqlite, database}

abbrev server : AppServer Database
server = record {
  get_app = get_app sqlite;
  create_app = create_app sqlite;
  update_app = update_app sqlite;
  delete_app = delete_app sqlite;
  next_fallback_port = next_fallback_port sqlite;
  restart = λ name db. (none, db);
  has_proxy = Bool.false;
  update_route = λ app name db. (none, db);
  remove_route = λ name db. (none, db);
  server_host = "203.0.113.7";
  server_domain = "";
  edge_provider = EdgeProvider.internal_traefik;
}

abbrev addressed : App
addressed = record shop { access_url = "https://shop.example" }

filled_in : (apply_access_fields server shop database).0 ≡ ok addressed
unfolding apply_access_fields pure
filled_in = refl

address_agrees_example :
    IsReachable (host_of server) addressed
    × (addressed.domain ≡ shop.domain)
    × (addressed.app_type ≡ shop.app_type)
address_agrees_example = address_agrees server shop addressed database filled_in

abbrev request : CreateAppRequest
request = record {
  name = "blog";
  app_type = AppType.managed;
  build_mode = BuildMode.external_ci;
  project_type = "";
  repo_url = "https://github.com/acme/blog";
  branch = "";
  internal_port = 0;
  domain = "blog.example";
  image_ref = "";
  container_name = "";
  external_target = "";
  docker_network = "";
}

abbrev blog : App
blog = record shop {
  id = 2;
  name = "blog";
  repo_url = "https://github.com/acme/blog";
  image_ref = "";
  domain = "blog.example";
  access_url = "https://blog.example";
  status = AppStatus.inactive;
  live_container_name = "";
}

abbrev secret_var : AppEnvVar
secret_var = record {
  id = 1;
  app_id = 1;
  key = "TOKEN";
  value = "hunter2";
  is_secret = Bool.true;
  required = Bool.false;
}

abbrev sealed_service : Service
sealed_service = record database_service { credentials = "!secret" }

abbrev service_store : (W : Type 0) → ServiceStore W
service_store W = record {
  list_services = λ w. (ok (sealed_service ∷ []), w);
  link_app_service = λ a s alias w. (none, w);
  unlink_app_service = λ a s w. (none, w);
  list_app_services = λ a w. (ok [], w);
  get_app_env_vars = λ a w. (ok (secret_var ∷ []), w);
  set_app_env_var = λ v w. (ok v, w);
  delete_app_env_var = λ a key w. (none, w);
  get_app_env_var_history = λ a key w. (ok [], w);
  list_buckets = λ url token w. (ok [], w);
  delete_bucket = λ url token id w. (none, w);
  is_unique_error = λ e. Bool.false;
}

abbrev services : ServiceStore (List String)
services = service_store (List String)

abbrev service_request : CreateServiceRequest
service_request = record { name = "db"; type = postgres; creds = none }

abbrev database_store : ServiceStore Database
database_store = record (service_store Database) { set_app_env_var = set_app_env_var sqlite }

abbrev with_required : Database
with_required = record database {
  env_vars = record secret_var { key = "PORT"; required = Bool.true } ∷ [];
}

set_env_var-IsOptional_example :
    All
      (IsOptional 1 "PORT")
      (set_env_var
        (idle Database)
        database_store
        (some 1)
        (some ("PORT", "", Bool.false))
        with_required).1.env_vars
set_env_var-IsOptional_example =
    set_env_var-IsOptional sqlite (idle Database) database_store (λ v db. refl) 1 "PORT" ""
      Bool.false with_required refl refl
