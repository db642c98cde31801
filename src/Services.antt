-- ===== src/Services.antt =====
-- internal/services: what the provisioner of managed services calls (the store, the encryption, the
-- file system, Docker and Garage's admin API), as operations on a world of type `W`.
pub mod Container
pub mod Provision
pub mod Garage
pub mod Generators
pub mod Readable
pub mod Started
use project_talos.Prelude.{ℕ, String, Bool, Option, List}
use project_talos.Domain.{Error, Result}
use project_talos.Domain.Service.{
  Service, Credentials, PostgresCredentials, MysqlCredentials, RedisCredentials, GarageCredentials,
  GarageWebuiCredentials,
}
use project_talos.Action.{Action}

-- `container.HealthConfig`, in seconds
pub record HealthConfig : Type 0 where
  pub test : List String
  pub interval : ℕ
  pub timeout : ℕ
  pub retries : ℕ

-- `docker.ContainerConfig`, without the fields that the provisioner leaves unset
pub record ServiceContainer : Type 0 where
  pub name : String
  pub image_ref : String
  pub internal_port : ℕ
  pub env : List String
  pub volumes : List String
  pub health_check : Option HealthConfig
  pub labels : List (String × String)

pub record GarageBucket : Type 0 where
  pub id : String
  pub global_aliases : List String

pub record Platform (W : Type 0) : Type 0 where
  -- ServiceStore
  pub create_service : Service → Action W (Result Service)
  pub get_service : ℕ → Action W (Result Service)
  pub update_service : Service → Action W (Option Error)
  pub delete_service : ℕ → Action W (Option Error)
  -- internal/crypto, with the provisioner's key
  pub encrypt : String → Action W (Result String)
  pub decrypt : String → Result String
  -- encoding/json; what is left of a text that does not fit is dropped with the error
  pub marshal : Credentials → String
  pub unmarshal_postgres : String → PostgresCredentials
  pub unmarshal_mysql : String → MysqlCredentials
  pub unmarshal_redis : String → RedisCredentials
  pub unmarshal_garage : String → GarageCredentials
  pub unmarshal_garage_webui : String → GarageWebuiCredentials
  -- os
  pub working_dir : String
  pub mkdir_all : String → Action W (Option Error)
  pub is_dir : String → Action W Bool
  pub remove_all : String → Action W (Unit {0})
  pub write_file : String → String → Action W (Option Error)
  -- docker.Client
  pub pull_image : String → Action W (Option Error)
  pub stop_and_remove : String → Action W (Option Error)
  pub start_container : ServiceContainer → Action W (Result String)
  -- the addresses of a container; none for one that is unspecified
  pub inspect_addresses : String → Action W (Result (List (Option String)))
  -- net.Dialer
  pub can_dial : String → Action W Bool
  -- GarageClient, by the address and the token
  pub wait_for_ready : String → String → Action W (Option Error)
  pub is_cluster_configured : String → String → Action W (Result Bool)
  pub configure_single_node_layout : String → String → Action W (Option Error)
  pub create_bucket : String → String → String → Action W (Result GarageBucket)

pub record Provisioner : Type 0 where
  pub data_dir : String
  pub host_data_root : String
