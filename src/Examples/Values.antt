-- ===== src/Examples/Values.antt =====
-- An app, a deploy, an order of rows and two environments of the engine.
use project_talos.Prelude.{
  ℕ, String, ◌<>◌, refl, Bool, false, not, Option, none, List, [], ◌∷◌, any, where_rows, leb, ◌==◌,
  string_eq, if◌then◌else◌,
}
use project_talos.Domain.{
  App, AppStatus, AccessMode, AppType, BuildMode, RuntimeOwner, EdgeProvider, Deploy, DeployStatus,
  Error, not_found, message, ok, err,
}
use project_talos.Proxy.{Manager, ProxyMode}
use project_talos.Store.{Database, Sqlite}
use project_talos.Store.Deploys.{
  create_deploy, get_latest_deploy, get_latest_successful_deploy, update_deploy,
  create_deploy_event,
}
use project_talos.Store.Apps.{get_app, update_app}
use project_talos.Engine.Interface.{Environment}
use project_talos.Engine.OneAtATime.{IsStored}

abbrev pub shop : App
shop = record {
  id = 1;
  name = "shop";
  app_type = AppType.managed;
  build_mode = BuildMode.external_ci;
  project_type = "";
  runtime_owner = RuntimeOwner.talos;
  edge_provider = EdgeProvider.internal_traefik;
  source = "github";
  repo_url = "https://github.com/acme/shop";
  branch = "main";
  internal_port = 3000;
  image_ref = "ghcr.io/acme/shop:1";
  domain = "shop.example";
  fallback_port = 0;
  access_mode = AccessMode.domain;
  access_url = "https://shop.example";
  status = AppStatus.active;
  current_deploy_id = none;
  live_container_name = "talos-shop-1";
  container_name = "";
  external_target = "";
  docker_network = "";
  github_installation_id = none;
  github_repo_id = none;
  registry_url = "";
  created_at = 0;
  updated_at = 0;
}

-- The same app on a port of the host
abbrev pub port_shop : App
port_shop = record shop { domain = ""; fallback_port = 40001; access_mode = AccessMode.port }

abbrev pub second_deploy : Deploy
second_deploy = record {
  id = 2;
  app_id = 1;
  image_ref = "ghcr.io/acme/shop:2";
  commit_sha = "";
  branch = "main";
  status = DeployStatus.pending;
  container_id = "";
  health_status = "";
  logs = "";
  env_snapshot = "";
  started_at = none;
  completed_at = none;
  triggered_by = "manual";
  rollback_of_id = none;
  created_at = 20;
}

abbrev pub first_deploy : Deploy
first_deploy = record second_deploy {
  id = 1;
  image_ref = "ghcr.io/acme/shop:1";
  status = DeployStatus.success;
  created_at = 10;
}

abbrev pub manager : Manager
manager = record {
  config_dir = "/etc/traefik";
  data_dir = "/data";
  host_data_root = "/data";
  network = "talos";
  edge_network = "";
  domain = "talos.example";
  acme_email = "";
  edge_cert_resolver = "";
  edge_entrypoint = "";
  proxy_mode = ProxyMode.internal;
  server_port = 8080;
}

-- Insertion in descending order
abbrev pub insert : {A : Type 0} → (A → ℕ) → A → List A → List A
insert key x [] = x ∷ []
insert key x (y ∷ ys) =
    let rest = insert key x ys in if leb (key y) (key x) then x ∷ y ∷ ys else y ∷ rest

abbrev pub sort : {A : Type 0} → (A → ℕ) → List A → List A
sort key [] = []
sort key (x ∷ xs) = insert key x (sort key xs)

abbrev pub sqlite : Sqlite
sqlite = record {
  constraint_failed = message "constraint failed";
  last_rowid = λ db. db.last_history_id;
  descending = λ key xs. sort key xs;
}

-- A host without a database, whose world is the list of its running containers. Its answer to a
-- health check is `health`.
abbrev pub docker_host : Option Error → Environment (List String)
docker_host health = record {
  get_app = λ i w. (ok shop, w);
  update_app = λ a w. (none, w);
  create_deploy = λ d w. (ok (record d { id = 2 }), w);
  get_latest_deploy = λ i w. (ok first_deploy, w);
  get_latest_successful_deploy = λ i w. (ok first_deploy, w);
  update_deploy = λ d w. (none, w);
  create_deploy_event = λ e w. (ok e, w);
  list_app_services = λ i w. (ok [], w);
  get_service = λ i w. (err not_found, w);
  get_app_env_vars = λ i w. (ok [], w);
  get_app_env_vars_snapshot = λ i w. (none, w);
  pull_image = λ ref w. (none, w);
  stop_and_remove = λ c w. (none, where_rows (λ name. not (name == c)) w);
  start_container_with_config = λ cfg w. (ok cfg.name, cfg.name ∷ w);
  wait_for_health = λ c n w. (health, w);
  manager = manager;
  update_route = λ a c w. (none, w);
  decrypt_postgres = λ s. err not_found;
  decrypt_mysql = λ s. err not_found;
  decrypt_redis = λ s. err not_found;
  decrypt_garage = λ s. err not_found;
  has_builder = λ w. false;
  has_gh_client = λ w. false;
  new_builder = λ w. w;
  clone_and_build = λ a sha log w. (err not_found, w);
  parse_repo_full_name = λ url. err not_found;
  resolve_branch_head_sha = λ i o r b w. (err not_found, w);
  marshal_snapshot = λ m. none;
  conn_url = λ scheme user password host path. scheme <> "://" <> host;
  to_upper = λ s. s;
  now = λ w. (30, w);
  publish = λ e w. w;
}

abbrev pub is_running : List String → String → Bool
is_running w name = any (λ c. c == name) w

-- The engine on a database
abbrev pub stored_host : Environment Database
stored_host = record {
  get_app = get_app sqlite;
  update_app = update_app sqlite;
  create_deploy = create_deploy sqlite;
  get_latest_deploy = get_latest_deploy sqlite;
  get_latest_successful_deploy = get_latest_successful_deploy sqlite;
  update_deploy = update_deploy sqlite;
  create_deploy_event = create_deploy_event sqlite;
  list_app_services = λ i w. (ok [], w);
  get_service = λ i w. (err not_found, w);
  get_app_env_vars = λ i w. (ok [], w);
  get_app_env_vars_snapshot = λ i w. (none, w);
  pull_image = λ ref w. (none, w);
  stop_and_remove = λ c w. (none, w);
  start_container_with_config = λ cfg w. (ok cfg.name, w);
  wait_for_health = λ c n w. (none, w);
  manager = manager;
  update_route = λ a c w. (none, w);
  decrypt_postgres = λ s. err not_found;
  decrypt_mysql = λ s. err not_found;
  decrypt_redis = λ s. err not_found;
  decrypt_garage = λ s. err not_found;
  has_builder = λ w. false;
  has_gh_client = λ w. false;
  new_builder = λ w. w;
  clone_and_build = λ a sha log w. (err not_found, w);
  parse_repo_full_name = λ url. err not_found;
  resolve_branch_head_sha = λ i o r b w. (err not_found, w);
  marshal_snapshot = λ m. none;
  conn_url = λ scheme user password host path. scheme <> "://" <> host;
  to_upper = λ s. s;
  now = λ w. (w.clock, w);
  publish = λ e w. w;
}

pub stored_host-IsStored : IsStored stored_host sqlite
stored_host-IsStored = record {
  get_app_is = λ i db. refl;
  get_latest_is = λ i db. refl;
  create_is = λ d db. refl;
}

abbrev pub database : Database
database = record {
  apps = shop ∷ [];
  last_app_id = 1;
  deploys = first_deploy ∷ [];
  last_deploy_id = 1;
  deploy_events = [];
  last_event_id = 0;
  backups = [];
  last_backup_id = 0;
  users = [];
  last_user_id = 0;
  services = [];
  last_service_id = 0;
  app_services = [];
  env_vars = [];
  last_env_var_id = 0;
  env_var_history = [];
  last_history_id = 0;
  clock = 20;
}
