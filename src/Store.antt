-- ===== src/Store.antt =====
-- internal/store/sqlite.go and migrations.go: the tables of the database, one list of rows each, in
-- the order of insertion, with the largest id that was ever given out (AUTOINCREMENT). The
-- statements of internal/store/*_repo.go are in the child modules; they are modelled on a database
-- that answers, where the errors left are the constraints of the schema. The columns that a struct
-- of internal/domain shares with its table are the struct's fields.
pub mod Deploys
pub mod Apps
pub mod Backups
pub mod Users
pub mod Services
pub mod EnvVars
pub mod EnvVarMap
pub mod EnvVarWrites
pub mod Names
pub mod Migrations
pub mod Migrated
pub mod Interrupted
mod Rows
pub mod References
pub mod Lookups
pub mod Latest
use project_talos.Prelude.{ℕ, String, Option, none, some, List, head?}
use project_talos.Domain.{App, Deploy, DeployEvent, User, Backup, Error, not_found, Result, ok, err}
use project_talos.Domain.Service.{Service, AppService, AppEnvVar, AppEnvVarHistory}

pub record Database : Type 0 where
  pub apps : List App
  pub last_app_id : ℕ
  pub deploys : List Deploy
  pub last_deploy_id : ℕ
  pub deploy_events : List DeployEvent
  pub last_event_id : ℕ
  pub backups : List Backup
  pub last_backup_id : ℕ
  pub users : List User
  pub last_user_id : ℕ
  pub services : List Service
  pub last_service_id : ℕ
  pub app_services : List AppService
  pub env_vars : List AppEnvVar
  pub last_env_var_id : ℕ
  pub env_var_history : List AppEnvVarHistory
  pub last_history_id : ℕ
  -- CURRENT_TIMESTAMP, in seconds
  pub clock : ℕ

-- SQLite, where the schema and the statements leave it open: the error for a constraint, the order
-- of the rows that an ORDER BY does not tell apart, and what LastInsertId answers after an INSERT that
-- became an UPDATE.
pub record Sqlite : Type 1 where
  pub constraint_failed : Error
  -- the rowid of the connection's last INSERT
  pub last_rowid : Database → ℕ
  -- `ORDER BY key DESC`
  pub descending : {A : Type 0} → (A → ℕ) → List A → List A

-- `sql.ErrNoRows` becomes `ErrNotFound`.
abbrev pub first_row : {A : Type 0} → Option A → Result A
first_row none = err not_found
first_row (some row) = ok row
