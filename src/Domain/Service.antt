-- ===== src/Domain/Service.antt =====
-- internal/domain/service.go: managed services, their credentials and environment variables.
use project_talos.Prelude.{ℕ, String, Bool, Option, none, some, List, [], ◌∷◌}

pub data ServiceType : Type 0 where
  postgres mysql redis garage garage_webui : ServiceType
  other : String → ServiceType

pub data ServiceStatus : Type 0 where
  pending provisioning active error stopped : ServiceStatus

pub record Service : Type 0 where
  pub id : ℕ
  pub name : String
  pub type : ServiceType
  pub image_ref : String
  pub status : ServiceStatus
  pub container_id : String
  pub app_id : Option ℕ
  pub volume_path : String
  pub credentials : String
  pub config : String
  pub internal_port : ℕ
  pub created_at : ℕ
  pub updated_at : ℕ

pub record AppService : Type 0 where
  pub app_id : ℕ
  pub service_id : ℕ
  pub alias : String

pub record AppEnvVar : Type 0 where
  pub id : ℕ
  pub app_id : ℕ
  pub key : String
  pub value : String
  pub is_secret : Bool
  pub required : Bool

pub record AppEnvVarHistory : Type 0 where
  pub id : ℕ
  pub app_id : ℕ
  pub key : String
  pub value : String
  pub is_secret : Bool
  pub changed_at : ℕ
  pub changed_by : String

-- The credential structs, and what the source passes round as `interface{}`.
pub record PostgresCredentials : Type 0 where
  pub host : String
  pub port : ℕ
  pub database : String
  pub user : String
  pub password : String

pub record MysqlCredentials : Type 0 where
  pub host : String
  pub port : ℕ
  pub database : String
  pub user : String
  pub password : String

pub record RedisCredentials : Type 0 where
  pub host : String
  pub port : ℕ
  pub password : String

pub record GarageCredentials : Type 0 where
  pub endpoint : String
  pub region : String
  pub access_key : String
  pub secret_key : String
  pub bucket : String
  pub admin_token : String
  pub rpc_secret : String

pub record GarageWebuiCredentials : Type 0 where
  pub admin_api_url : String
  pub s3_endpoint : String
  pub admin_key : String
  pub username : String
  pub password : String

pub data Credentials : Type 0 where
  of_postgres : PostgresCredentials → Credentials
  of_mysql : MysqlCredentials → Credentials
  of_redis : RedisCredentials → Credentials
  of_garage : GarageCredentials → Credentials
  of_garage_webui : GarageWebuiCredentials → Credentials

pub record ServiceDefinition : Type 0 where
  pub default_image : String
  pub port : ℕ
  pub volume_path : String
  pub health_cmd : List String

-- `ServiceDefinitions`
unfoldable pub service_definition : ServiceType → Option ServiceDefinition
service_definition postgres = some (record {
  default_image = "postgres:16";
  port = 5432;
  volume_path = "/var/lib/postgresql/data";
  health_cmd = "CMD-SHELL" ∷ "pg_isready -U $POSTGRES_USER" ∷ [];
})
service_definition mysql = some (record {
  default_image = "mysql:8";
  port = 3306;
  volume_path = "/var/lib/mysql";
  health_cmd = "CMD-SHELL" ∷ "mysqladmin ping -h localhost -u root -p$MYSQL_ROOT_PASSWORD" ∷ [];
})
service_definition redis = some (record {
  default_image = "redis:7-alpine";
  port = 6379;
  volume_path = "/data";
  health_cmd = "CMD" ∷ "redis-cli" ∷ "ping" ∷ [];
})
service_definition garage = some (record {
  default_image = "dxflrs/garage:v2.0.0";
  port = 3900;
  volume_path = "/var/lib/garage";
  health_cmd = "CMD-SHELL" ∷ "wget -qO- http://localhost:3900/health || exit 1" ∷ [];
})
service_definition garage_webui = some (record {
  default_image = "khairul169/garage-webui:latest";
  port = 3909;
  volume_path = "";
  health_cmd = "CMD-SHELL" ∷ "wget -qO- http://localhost:3909/ || exit 1" ∷ [];
})
service_definition (other _) = none
