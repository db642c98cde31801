-- ===== src/Store/Apps.antt =====
-- internal/store/app_repo.go
use project_talos.Prelude.{
  ℕ, String, Bool, not, ◌&&◌, ◌||◌, Option, none, some, List, [], ◌∷◌, ◌++◌, map, suc, any,
  where_rows, update_where, head?, ◌==◌, nat_eq, string_eq, ltb, if◌then◌else◌,
}
use project_talos.Domain.{App, Deploy, Error, wrap, Result, ok, err}
use project_talos.Domain.Service.{Service}
use project_talos.Store.{Database, Sqlite, first_row}
use project_talos.Store.Deploys.{deploy_exists, deploy_reference}
use project_talos.Action.{Action}

-- The unique indexes: the name, a domain that is not empty, a port that is not 0.
abbrev pub clashes : App → App → Bool
clashes a row =
    a.name == row.name
    || (not (a.domain == "") && a.domain == row.domain)
    || (ltb 0 a.fallback_port && a.fallback_port == row.fallback_port)

abbrev pub is_id : Option ℕ → ℕ → Bool
is_id none _ = Bool.false
is_id (some n) id = n == id

-- `MAX(fallback_port)` over the ports that are not 0
abbrev pub larger_port : Option ℕ → ℕ → Option ℕ
larger_port none port = if ltb 0 port then some port else none
larger_port (some largest) port = if ltb largest port then some port else some largest

abbrev pub max_port : List App → Option ℕ
max_port [] = none
max_port (a ∷ rest) = larger_port (max_port rest) a.fallback_port

abbrev pub next_port : Option ℕ → ℕ
next_port none = suc 40000
next_port (some port) = suc port

-- The constraints are checked on the row that is written, so not when there is none.
unfoldable pub update_fails : App → Database → Bool
update_fails a db =
    any (λ row. row.id == a.id) db.apps
    && (any (clashes a) (where_rows (λ row. not (row.id == a.id)) db.apps)
        || not (deploy_reference a.current_deploy_id db.deploys))

abbrev pub updated_app : App → ℕ → App → App
updated_app a now row = record a { id = row.id; created_at = row.created_at; updated_at = now }

abbrev pub refers_into : List Deploy → Option ℕ → Bool
refers_into deploys none = Bool.false
refers_into deploys (some id) = deploy_exists id deploys

abbrev pub deploys_of : ℕ → List Deploy → List Deploy
deploys_of id deploys = where_rows (λ d. d.app_id == id) deploys

-- A service that belonged to the app stays without one (ON DELETE SET NULL).
abbrev pub without_owner : ℕ → Service → Service
without_owner id svc = record svc { app_id = if is_id svc.app_id id then none else svc.app_id }

-- The app's deploys and their events, its links and its variables go with it (ON DELETE CASCADE).
abbrev pub without_app : ℕ → Database → Database
without_app id db = record db {
  apps = where_rows (λ a. not (a.id == id)) db.apps;
  deploys = where_rows (λ d. not (d.app_id == id)) db.deploys;
  deploy_events =
      where_rows (λ e. not (deploy_exists e.deploy_id (deploys_of id db.deploys))) db.deploy_events;
  services = map (without_owner id) db.services;
  app_services = where_rows (λ link. not (link.app_id == id)) db.app_services;
  env_vars = where_rows (λ v. not (v.app_id == id)) db.env_vars;
  env_var_history = where_rows (λ h. not (h.app_id == id)) db.env_var_history;
}

-- A row that stays may not refer to a deploy that goes.
unfoldable pub delete_fails : ℕ → Database → Bool
delete_fails id db =
    any (λ a. refers_into (deploys_of id db.deploys) a.current_deploy_id) (without_app id db).apps
    || any (λ d. refers_into (deploys_of id db.deploys) d.rollback_of_id)
        (without_app id db).deploys

module _ (sqlite : Sqlite) where
  -- `current_deploy_id` is not among the columns of the INSERT.
  unfoldable pub create_app : App → Action Database (Result App)
  create_app a db =
      let id = suc db.last_app_id in
      if any (clashes a) db.apps then (err (wrap "insert app" sqlite.constraint_failed), db) else (
        ok (record a { id = id }),
        record db {
          apps =
              db.apps
              ++ (record a {
                id = id;
                current_deploy_id = none;
                created_at = db.clock;
                updated_at = db.clock;
              }
                  ∷ []);
          last_app_id = id;
        },
      )

  unfoldable pub get_app : ℕ → Action Database (Result App)
  get_app id db = (first_row (head? (where_rows (λ a. a.id == id) db.apps)), db)

  unfoldable pub get_app_by_name : String → Action Database (Result App)
  get_app_by_name name db = (first_row (head? (where_rows (λ a. a.name == name) db.apps)), db)

  unfoldable pub get_app_by_domain : String → Action Database (Result App)
  get_app_by_domain domain db =
      (first_row (head? (where_rows (λ a. a.domain == domain) db.apps)), db)

  unfoldable pub get_app_by_installation_and_repo : ℕ → ℕ → Action Database (Result App)
  get_app_by_installation_and_repo installation_id repo_id db = (
    first_row (
        head? (
          where_rows
            (λ a. is_id a.github_installation_id installation_id && is_id a.github_repo_id repo_id)
            db.apps)),
    db,
  )

  unfoldable pub get_app_by_github_repo_id : ℕ → Action Database (Result App)
  get_app_by_github_repo_id repo_id db =
      (first_row (head? (where_rows (λ a. is_id a.github_repo_id repo_id) db.apps)), db)

  unfoldable pub list_apps : Action Database (Result (List App))
  list_apps db = (ok (sqlite.descending (λ a. a.created_at) db.apps), db)

  unfoldable pub update_app : App → Action Database (Option Error)
  update_app a db =
      if update_fails a db then (some (wrap "update app" sqlite.constraint_failed), db) else (
        none,
        record db { apps = update_where (λ row. row.id == a.id) (updated_app a db.clock) db.apps },
      )

  unfoldable pub delete_app : ℕ → Action Database (Option Error)
  delete_app id db =
      if delete_fails id db
      then (some (wrap "delete app" sqlite.constraint_failed), db)
      else (none, without_app id db)

  unfoldable pub next_fallback_port : Action Database (Result ℕ)
  next_fallback_port db = (ok (next_port (max_port db.apps)), db)
