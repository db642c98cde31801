-- ===== src/Store/Deploys.antt =====
-- internal/store/deploy_repo.go
use project_talos.Prelude.{
  ℕ, Bool, Option, none, some, List, [], ◌∷◌, ◌++◌, suc, ◌&&◌, any, where_rows, update_where, take,
  head?, ◌==◌, nat_eq, if◌then◌else◌,
}
use project_talos.Domain.{App, Deploy, DeployStatus, DeployEvent, Error, wrap, Result, ok, err}
use project_talos.Store.{Database, Sqlite, first_row}
use project_talos.Action.{Action}

abbrev pub app_exists : ℕ → List App → Bool
app_exists id apps = any (λ a. a.id == id) apps

abbrev pub deploy_exists : ℕ → List Deploy → Bool
deploy_exists id deploys = any (λ d. d.id == id) deploys

-- A nullable reference to a deploy
abbrev pub deploy_reference : Option ℕ → List Deploy → Bool
deploy_reference none _ = Bool.true
deploy_reference (some id) deploys = deploy_exists id deploys

abbrev pub is_success : DeployStatus → Bool
is_success DeployStatus.success = Bool.true
is_success _ = Bool.false

-- The row that `CreateDeploy` inserts: the columns it does not name take their defaults.
abbrev pub inserted_deploy : Deploy → ℕ → ℕ → Deploy
inserted_deploy d id now = record d {
  id = id;
  container_id = "";
  health_status = "";
  logs = "";
  started_at = none;
  completed_at = none;
  created_at = now;
}

-- The columns that `UpdateDeploy` writes.
abbrev pub updated_deploy : Deploy → Deploy → Deploy
updated_deploy d row = record row {
  status = d.status;
  container_id = d.container_id;
  health_status = d.health_status;
  logs = d.logs;
  env_snapshot = d.env_snapshot;
  started_at = d.started_at;
  completed_at = d.completed_at;
}

module _ (sqlite : Sqlite) where
  -- The struct with its new id, as the caller has it afterwards.
  unfoldable pub create_deploy : Deploy → Action Database (Result Deploy)
  create_deploy d db =
      let id = suc db.last_deploy_id in
      if app_exists d.app_id db.apps
      then (if deploy_reference d.rollback_of_id db.deploys
          then (
            ok (record d { id = id }),
            record db {
              deploys = db.deploys ++ (inserted_deploy d id db.clock ∷ []);
              last_deploy_id = id;
            },
          )
          else (err (wrap "insert deploy" sqlite.constraint_failed), db))
      else (err (wrap "insert deploy" sqlite.constraint_failed), db)

  unfoldable pub get_deploy : ℕ → Action Database (Result Deploy)
  get_deploy id db = (first_row (head? (where_rows (λ d. d.id == id) db.deploys)), db)

  unfoldable pub get_latest_deploy : ℕ → Action Database (Result Deploy)
  get_latest_deploy app_id db = (
    first_row (
        head? (
          sqlite.descending (λ d. d.created_at) (where_rows (λ d. d.app_id == app_id) db.deploys))),
    db,
  )

  unfoldable pub get_latest_successful_deploy : ℕ → Action Database (Result Deploy)
  get_latest_successful_deploy app_id db = (
    first_row (
        head? (
          sqlite.descending (λ d. d.created_at)
            (where_rows (λ d. d.app_id == app_id && is_success d.status) db.deploys))),
    db,
  )

  unfoldable pub list_deploys : ℕ → ℕ → Action Database (Result (List Deploy))
  list_deploys app_id limit db = (
    ok (
        take limit (
          sqlite.descending (λ d. d.created_at) (where_rows (λ d. d.app_id == app_id) db.deploys))),
    db,
  )

  unfoldable pub update_deploy : Deploy → Action Database (Option Error)
  update_deploy d db = (
    none,
    record db { deploys = update_where (λ row. row.id == d.id) (updated_deploy d) db.deploys },
  )

  unfoldable pub create_deploy_event : DeployEvent → Action Database (Result DeployEvent)
  create_deploy_event e db =
      let id = suc db.last_event_id in
      if deploy_exists e.deploy_id db.deploys
      then (
        ok (record e { id = id }),
        record db {
          deploy_events = db.deploy_events ++ (record e { id = id; timestamp = db.clock } ∷ []);
          last_event_id = id;
        },
      )
      else (err (wrap "insert deploy event" sqlite.constraint_failed), db)
