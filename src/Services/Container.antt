-- ===== src/Services/Container.antt =====
-- internal/services/provisioner.go: the configuration of a service's container.
use project_talos.Prelude.{
  String, ◌<>◌, Bool, Option, none, some, List, [], ◌∷◌, ◌++◌, join_path, rel, abs, begins_with,
  ◌==◌, string_eq, if◌then◌else◌,
}
use project_talos.Domain.{message, Result, ok, err}
use project_talos.Domain.Service.{
  Service, ServiceType, postgres, mysql, redis, garage, garage_webui, other, ServiceDefinition,
  service_definition, GarageCredentials,
}
use project_talos.Services.{HealthConfig, ServiceContainer, Platform, Provisioner}

-- The database's text of a type, which the labels show
unfoldable pub type_text : ServiceType → String
type_text postgres = "postgres"
type_text mysql = "mysql"
type_text redis = "redis"
type_text garage = "garage"
type_text garage_webui = "garage_webui"
type_text (other text) = text

abbrev pub container_name : Service → String
container_name svc = "talos-svc-" <> svc.name

abbrev pub is_garage : ServiceType → Bool
is_garage garage = Bool.true
is_garage _ = Bool.false

-- `generateGarageConfig`; the name of the service is not used.
unfoldable pub generate_garage_config : GarageCredentials → String
generate_garage_config c =
    "metadata_dir = \"/var/lib/garage/meta\"\ndata_dir = \"/var/lib/garage/data\"\ndb_engine = \"sqlite\"\nreplication_factor = 1\n\nrpc_bind_addr = \"[::]:3901\"\nrpc_public_addr = \"127.0.0.1:3901\"\nrpc_secret = \""
    <> c.rpc_secret <> "\"\n\n[s3_api]\ns3_region = \"" <> c.region
    <> "\"\napi_bind_addr = \"[::]:3900\"\n\n[admin]\napi_bind_addr = \"[::]:3903\"\nadmin_token = \""
    <> c.admin_token <> "\"\n"

abbrev checked_by : List String → Option HealthConfig
checked_by test = some (record { test = test; interval = 10; timeout = 5; retries = 5 })

-- `domain.ServiceDefinitions[svc.Type]`, whose zero value stands for a type that is not there
abbrev volume_path_of : Option ServiceDefinition → String
volume_path_of none = ""
volume_path_of (some def) = def.volume_path

abbrev health_cmd_of : Option ServiceDefinition → List String
health_cmd_of none = []
health_cmd_of (some def) = def.health_cmd

abbrev rel_or : String → String → Option String → String
rel_or root path none = path
rel_or root path (some r) = join_path (root ∷ r ∷ [])

abbrev base_config : Service → ServiceContainer
base_config svc = record {
  name = container_name svc;
  image_ref = svc.image_ref;
  internal_port = svc.internal_port;
  env = [];
  volumes = [];
  health_check = none;
  labels =
      ("managed-by", "talos") ∷ ("talos-svc", svc.name) ∷ ("talos-type", type_text svc.type) ∷ [];
}

abbrev auth_env : String → String → List String
auth_env username password =
    if username == "" then [] else ("AUTH_USER_PASS=" <> username <> ":" <> password) ∷ []

module _ {W : Type 0} (platform : Platform W) (p : Provisioner) where
  -- `hostPath`
  unfoldable pub host_path : String → String
  host_path path =
      let result =
        if p.host_data_root == ""
        then path
        else rel_or p.host_data_root path (rel p.data_dir path) in
      if begins_with b'/' result then result else abs platform.working_dir result

  -- The cases of `buildContainerConfigFromJSON`, by the type
  unfoldable pub config_of_type : ServiceType → Service → String → String → Result ServiceContainer
  unfolding host_path
  config_of_type postgres svc cred_json vol_host =
      let c = platform.unmarshal_postgres cred_json in
      let def = service_definition svc.type in
      ok (record (base_config svc) {
        env =
            ("POSTGRES_DB=" <> c.database)
            ∷ ("POSTGRES_USER=" <> c.user)
            ∷ ("POSTGRES_PASSWORD=" <> c.password)
            ∷ [];
        volumes = (host_path vol_host <> ":" <> volume_path_of def) ∷ [];
        health_check = checked_by (health_cmd_of def);
      })
  config_of_type mysql svc cred_json vol_host =
      let c = platform.unmarshal_mysql cred_json in
      let def = service_definition svc.type in
      ok (record (base_config svc) {
        env =
            ("MYSQL_DATABASE=" <> c.database)
            ∷ ("MYSQL_USER=" <> c.user)
            ∷ ("MYSQL_PASSWORD=" <> c.password)
            ∷ ("MYSQL_ROOT_PASSWORD=" <> c.password)
            ∷ [];
        volumes = (host_path vol_host <> ":" <> volume_path_of def) ∷ [];
        health_check = checked_by (health_cmd_of def);
      })
  config_of_type redis svc cred_json vol_host =
      let c = platform.unmarshal_redis cred_json in
      let def = service_definition svc.type in
      ok (record (base_config svc) {
        volumes = (host_path vol_host <> ":" <> volume_path_of def) ∷ [];
        health_check = checked_by ("CMD" ∷ "redis-cli" ∷ "-a" ∷ c.password ∷ "ping" ∷ []);
      })
  config_of_type garage svc cred_json vol_host = ok (record (base_config svc) {
    env = "GARAGE_CONFIG_FILE=/etc/garage.toml" ∷ [];
    volumes =
        (host_path (vol_host <> "/garage.toml") <> ":/etc/garage.toml:ro")
        ∷ (container_name svc <> "-meta:/var/lib/garage/meta")
        ∷ (container_name svc <> "-data:/var/lib/garage/data")
        ∷ [];
    health_check =
        checked_by ("CMD-SHELL" ∷ "wget -qO- http://localhost:3900/health || exit 1" ∷ []);
  })
  config_of_type garage_webui svc cred_json vol_host =
      let c = platform.unmarshal_garage_webui cred_json in
      ok (record (base_config svc) {
        env =
            (("API_BASE_URL=" <> c.admin_api_url)
              ∷ ("API_ADMIN_KEY=" <> c.admin_key)
              ∷ ("S3_ENDPOINT_URL=" <> c.s3_endpoint)
              ∷ [])
            ++ auth_env c.username c.password;
        health_check = checked_by ("CMD-SHELL" ∷ "wget -qO- http://localhost:3909/ || exit 1" ∷ []);
      })
  config_of_type (other text) svc cred_json vol_host =
      err (message ("unsupported service type: " <> text))

  -- `buildContainerConfigFromJSON`
  unfoldable pub build_container_config : Service → String → String → Result ServiceContainer
  unfolding config_of_type
  build_container_config svc cred_json vol_host = config_of_type svc.type svc cred_json vol_host
