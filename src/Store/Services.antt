-- ===== src/Store/Services.antt =====
-- internal/store/service_repo.go: the services, and their links to apps.
use project_talos.Prelude.{
  ℕ, String, Bool, true, not, ◌&&◌, ◌||◌, Option, none, some, List, [], ◌∷◌, ◌++◌, suc, any,
  where_rows, update_where, head?, ◌==◌, nat_eq, string_eq, if◌then◌else◌,
}
use project_talos.Domain.{App, Error, wrap, Result, ok, err}
use project_talos.Domain.Service.{Service, AppService}
use project_talos.Store.{Database, Sqlite, first_row}
use project_talos.Store.Deploys.{app_exists}
use project_talos.Action.{Action}

abbrev pub service_exists : ℕ → List Service → Bool
service_exists id services = any (λ svc. svc.id == id) services

-- The nullable reference to an app
abbrev pub owner_exists : Option ℕ → List App → Bool
owner_exists none _ = true
owner_exists (some id) apps = app_exists id apps

abbrev pub name_taken : String → List Service → Bool
name_taken name services = any (λ row. row.name == name) services

-- The row that `CreateService` inserts: the container and the times take their defaults.
abbrev pub inserted_service : Service → ℕ → ℕ → Service
inserted_service svc id now = record svc {
  id = id;
  container_id = "";
  created_at = now;
  updated_at = now;
}

abbrev pub updated_service : Service → ℕ → Service → Service
updated_service svc now row = record svc {
  id = row.id;
  created_at = row.created_at;
  updated_at = now;
}

abbrev pub service_rejected : Service → List Service → Database → Bool
service_rejected svc others db = name_taken svc.name others || not (owner_exists svc.app_id db.apps)

-- The constraints are checked on the row that is written, so not when there is none.
unfoldable pub update_service_fails : Service → Database → Bool
update_service_fails svc db =
    service_exists svc.id db.services
    && service_rejected svc (where_rows (λ row. not (row.id == svc.id)) db.services) db

abbrev pub is_link : ℕ → ℕ → AppService → Bool
is_link app_id service_id link = link.app_id == app_id && link.service_id == service_id

module _ (sqlite : Sqlite) where
  unfoldable pub create_service : Service → Action Database (Result Service)
  create_service svc db =
      let id = suc db.last_service_id in
      if service_rejected svc db.services db
      then (err (wrap "insert service" sqlite.constraint_failed), db)
      else (
        ok (record svc { id = id }),
        record db {
          services = db.services ++ (inserted_service svc id db.clock ∷ []);
          last_service_id = id;
        },
      )

  unfoldable pub get_service : ℕ → Action Database (Result Service)
  get_service id db = (first_row (head? (where_rows (λ svc. svc.id == id) db.services)), db)

  unfoldable pub get_service_by_name : String → Action Database (Result Service)
  get_service_by_name name db =
      (first_row (head? (where_rows (λ svc. svc.name == name) db.services)), db)

  unfoldable pub list_services : Action Database (Result (List Service))
  list_services db = (ok (sqlite.descending (λ svc. svc.created_at) db.services), db)

  unfoldable pub update_service : Service → Action Database (Option Error)
  update_service svc db =
      if update_service_fails svc db
      then (some (wrap "update service" sqlite.constraint_failed), db)
      else (
        none,
        record db {
          services =
              update_where (λ row. row.id == svc.id) (updated_service svc db.clock) db.services;
        },
      )

  -- The links of the service go with it (ON DELETE CASCADE).
  unfoldable pub delete_service : ℕ → Action Database (Option Error)
  delete_service id db = (
    none,
    record db {
      services = where_rows (λ svc. not (svc.id == id)) db.services;
      app_services = where_rows (λ link. not (link.service_id == id)) db.app_services;
    },
  )

  -- INSERT OR REPLACE, with the key of app and service
  unfoldable pub link_app_service : ℕ → ℕ → String → Action Database (Option Error)
  link_app_service app_id service_id alias db =
      if app_exists app_id db.apps && service_exists service_id db.services
      then (
        none,
        record db {
          app_services =
              where_rows (λ link. not (is_link app_id service_id link)) db.app_services
              ++ (record { app_id = app_id; service_id = service_id; alias = alias } ∷ []);
        },
      )
      else (some (wrap "link app service" sqlite.constraint_failed), db)

  unfoldable pub unlink_app_service : ℕ → ℕ → Action Database (Option Error)
  unlink_app_service app_id service_id db = (
    none,
    record db {
      app_services = where_rows (λ link. not (is_link app_id service_id link)) db.app_services;
    },
  )

  unfoldable pub list_app_services : ℕ → Action Database (Result (List AppService))
  list_app_services app_id db =
      (ok (where_rows (λ link. link.app_id == app_id) db.app_services), db)

  unfoldable pub get_linked_apps : ℕ → Action Database (Result (List AppService))
  get_linked_apps service_id db =
      (ok (where_rows (λ link. link.service_id == service_id) db.app_services), db)
