-- ===== src/Domain.antt =====
-- internal/domain: the records that every other part passes round. A Go string type with named
-- constants is a data type with those constants; where the code also meets other texts it has the
-- constructor `other`. An `int64` id and an `int` port are natural numbers, a `time.Time` is a
-- number of seconds, and a pointer that may be nil is an `Option`.
pub mod Service
use project_talos.Prelude.{
  ℕ, String, Bool, true, false, not, Option, ◌==◌, string_eq, if◌then◌else◌,
}

pub data AppStatus : Type 0 where
  active inactive error : AppStatus

pub data AccessMode : Type 0 where
  domain port : AccessMode

pub data AppType : Type 0 where
  managed adopted_container external_service : AppType
  other : String → AppType

pub data BuildMode : Type 0 where
  external_ci talos_build : BuildMode
  other : String → BuildMode

pub data RuntimeOwner : Type 0 where
  talos external : RuntimeOwner

pub data EdgeProvider : Type 0 where
  internal_traefik external_traefik : EdgeProvider

pub record App : Type 0 where
  pub id : ℕ
  pub name : String
  pub app_type : AppType
  pub build_mode : BuildMode
  pub project_type : String
  pub runtime_owner : RuntimeOwner
  pub edge_provider : EdgeProvider
  pub source : String
  pub repo_url : String
  pub branch : String
  pub internal_port : ℕ
  pub image_ref : String
  pub domain : String
  pub fallback_port : ℕ
  pub access_mode : AccessMode
  pub access_url : String
  pub status : AppStatus
  pub current_deploy_id : Option ℕ
  pub live_container_name : String
  pub container_name : String
  pub external_target : String
  pub docker_network : String
  pub github_installation_id : Option ℕ
  pub github_repo_id : Option ℕ
  pub registry_url : String
  pub created_at : ℕ
  pub updated_at : ℕ

unfoldable pub effective_container_name : App → String
effective_container_name a =
    if not (a.container_name == "")
    then a.container_name
    else if not (a.live_container_name == "")
    then a.live_container_name
    else ""

pub data DeployStatus : Type 0 where
  pending running success failed rollback auto_rollback : DeployStatus

pub record Deploy : Type 0 where
  pub id : ℕ
  pub app_id : ℕ
  pub image_ref : String
  pub commit_sha : String
  pub branch : String
  pub status : DeployStatus
  pub container_id : String
  pub health_status : String
  pub logs : String
  pub env_snapshot : String
  pub started_at : Option ℕ
  pub completed_at : Option ℕ
  pub triggered_by : String
  pub rollback_of_id : Option ℕ
  pub created_at : ℕ

abbrev pub is_terminal : DeployStatus → Bool
is_terminal success = true
is_terminal failed = true
is_terminal auto_rollback = true
is_terminal rollback = true
is_terminal _ = false

pub record DeployEvent : Type 0 where
  pub id : ℕ
  pub deploy_id : ℕ
  pub timestamp : ℕ
  pub level : String
  pub step : String
  pub message : String

pub record User : Type 0 where
  pub id : ℕ
  pub username : String
  pub password_hash : String
  pub created_at : ℕ
  pub updated_at : ℕ

pub record Backup : Type 0 where
  pub id : ℕ
  pub filename : String
  pub size_bytes : ℕ
  pub type : String
  pub status : String
  pub created_at : ℕ

-- The sentinel errors, an error made from a text, and `fmt.Errorf("…: %w", err)`.
pub data Error : Type 0 where
  not_found conflict deploy_in_progress unauthorized invalid_input : Error
  message : String → Error
  wrap : String → Error → Error

-- `errors.Is(err, ErrNotFound)` follows the wrapping; `err == ErrNotFound` does not.
abbrev pub is_not_found : Error → Bool
is_not_found not_found = true
is_not_found (wrap _ e) = is_not_found e
is_not_found _ = false

abbrev pub eq_not_found : Error → Bool
eq_not_found not_found = true
eq_not_found _ = false

abbrev pub is_deploy_in_progress : Error → Bool
is_deploy_in_progress deploy_in_progress = true
is_deploy_in_progress (wrap _ e) = is_deploy_in_progress e
is_deploy_in_progress _ = false

-- A Go function that returns `(A, error)`.
pub data Result {ℓ} (A : Type ℓ) : Type ℓ where
  ok : A → Result A
  err : Error → Result A
