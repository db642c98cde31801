-- ===== src/Engine/Interface.antt =====
-- What the engine calls: the stores (internal/store/store.go, which are interfaces in the source
-- too), the Docker client, the proxy's file writes, the GitHub client and builder, the decryption
-- of credentials, the clock and the broadcaster. Each is an operation on a world of type `W`.
use project_talos.Prelude.{ℕ, String, Bool, Option, List}
use project_talos.Domain.{App, Deploy, DeployEvent, Error, Result}
use project_talos.Domain.Service.{
  Service, AppService, AppEnvVar, PostgresCredentials, MysqlCredentials, RedisCredentials,
  GarageCredentials,
}
use project_talos.Action.{Action}
use project_talos.Proxy.{Manager}

-- `docker.ContainerConfig`, without the fields that the engine leaves unset
pub record ContainerConfig : Type 0 where
  pub name : String
  pub image_ref : String
  pub internal_port : ℕ
  pub env : List String
  pub ports : List String
  pub networks : List String
  pub labels : List (String × String)

pub record CloneAndBuildResult : Type 0 where
  pub image_ref : String
  pub port : ℕ
  pub provider : String

pub record Environment (W : Type 0) : Type 0 where
  -- AppStore, DeployStore, ServiceStore
  pub get_app : ℕ → Action W (Result App)
  pub update_app : App → Action W (Option Error)
  pub create_deploy : Deploy → Action W (Result Deploy)
  pub get_latest_deploy : ℕ → Action W (Result Deploy)
  pub get_latest_successful_deploy : ℕ → Action W (Result Deploy)
  pub update_deploy : Deploy → Action W (Option Error)
  pub create_deploy_event : DeployEvent → Action W (Result DeployEvent)
  pub list_app_services : ℕ → Action W (Result (List AppService))
  pub get_service : ℕ → Action W (Result Service)
  pub get_app_env_vars : ℕ → Action W (Result (List AppEnvVar))
  -- the map, which may be nil; the engine drops the error
  pub get_app_env_vars_snapshot : ℕ → Action W (Option (List (String × String)))
  -- docker.Client
  pub pull_image : String → Action W (Option Error)
  pub stop_and_remove : String → Action W (Option Error)
  pub start_container_with_config : ContainerConfig → Action W (Result String)
  -- the second argument is the timeout in seconds
  pub wait_for_health : String → ℕ → Action W (Option Error)
  -- traefik.Manager
  pub manager : Manager
  pub update_route : App → String → Action W (Option Error)
  -- services.Provisioner: `DecryptCredentials` into each struct
  pub decrypt_postgres : Service → Result PostgresCredentials
  pub decrypt_mysql : Service → Result MysqlCredentials
  pub decrypt_redis : Service → Result RedisCredentials
  pub decrypt_garage : Service → Result GarageCredentials
  -- builder.Builder and github.AppClient; the pointers may be nil
  pub has_builder : W → Bool
  pub has_gh_client : W → Bool
  pub new_builder : W → W
  pub clone_and_build :
      App
      → String
      → (String → String → String → Action W (Unit {0}))
      → Action W (Result CloneAndBuildResult)
  pub parse_repo_full_name : String → Result (String × String)
  pub resolve_branch_head_sha : ℕ → String → String → String → Action W (Result String)
  -- encoding/json, net/url, strings and time
  pub marshal_snapshot : Option (List (String × String)) → Option String
  pub conn_url : (scheme user password host path : String) → String
  pub to_upper : String → String
  pub now : Action W ℕ
  -- EventBroadcaster.Publish
  pub publish : DeployEvent → W → W
