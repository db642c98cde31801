-- ===== src/Examples/Store.antt =====
-- The statements on the database of the app `shop`.
use project_talos.Prelude.{String, ◌≡◌, refl, arith, false, none, some, [], ◌∷◌, ◌&&◌, ◌==◌, nat_eq}
use project_talos.Domain.{message, wrap, DeployEvent}
use project_talos.Store.Deploys.{
  create_deploy, update_deploy, create_deploy_event, is_success, get_latest_deploy,
  get_latest_successful_deploy,
}
use project_talos.Store.Apps.{create_app, update_app, delete_app}
use project_talos.Store.References.{IsValid, statements_keep_references}
use project_talos.Store.Latest.{IsNewest, latest-IsNewest}
use project_talos.Domain.Service.{AppEnvVar}
use project_talos.Store.{Database}
use project_talos.Store.EnvVarMap.{set, delete, value_of, history_values}
use project_talos.Store.EnvVarWrites.{run_writes, table_refines_map}
use project_talos.Store.Services.{create_service, update_service, delete_service}
use project_talos.Store.Migrations.{Sql, migration_count, migrate}
use project_talos.Store.Migrated.{Runs, at_version, migrated}
use project_talos.Store.Interrupted.{only_users, interrupted_start}
use project_talos.Store.Names
use project_talos.Store.Names.{services_stay_different}
use project_talos.Examples.Services.{database_service}
use project_talos.Examples.Values.{shop, first_deploy, second_deploy, sqlite, database}
use project_talos.Examples.Laws.{sqlite-SortLaws}

abbrev event : DeployEvent
event = record {
  id = 0;
  deploy_id = 1;
  timestamp = 0;
  level = "info";
  step = "start";
  message = "started";
}

database-IsValid : IsValid database
database-IsValid = record { have_app = (refl, tt); have_deploy = tt }

statements_keep_references_example :
    IsValid (create_app sqlite shop database).1
    × IsValid (update_app sqlite shop database).1
    × IsValid (delete_app sqlite 1 database).1
    × IsValid (create_deploy sqlite second_deploy database).1
    × IsValid (update_deploy sqlite second_deploy database).1
    × IsValid (create_deploy_event sqlite event database).1
statements_keep_references_example =
    statements_keep_references sqlite database database-IsValid shop second_deploy event 1

latest-IsNewest_example :
    IsNewest (λ d. d.app_id == 1) (first_deploy ∷ []) (get_latest_deploy sqlite 1 database).0
    × IsNewest
        (λ d. d.app_id == 1 && is_success d.status)
        (first_deploy ∷ [])
        (get_latest_successful_deploy sqlite 1 database).0
latest-IsNewest_example = latest-IsNewest sqlite sqlite-SortLaws 1 database

abbrev port_set : String → AppEnvVar
port_set text = record {
  id = 0;
  app_id = 1;
  key = "PORT";
  value = text;
  is_secret = false;
  required = false;
}

-- The first value is replaced, the second deleted.
table_refines_map_example :
    (value_of
        (run_writes sqlite
          (set (port_set "80") ∷ set (port_set "81") ∷ delete 1 "PORT" ∷ [])
          database)
        1
        "PORT"
      ≡ none)
    × (history_values
          (run_writes sqlite
            (set (port_set "80") ∷ set (port_set "81") ∷ delete 1 "PORT" ∷ [])
            database)
          1
          "PORT"
        ≡ "80" ∷ [])
table_refines_map_example =
    table_refines_map sqlite (set (port_set "80") ∷ set (port_set "81") ∷ delete 1 "PORT" ∷ [])
      database (refl, (refl, (tt, tt))) 1 "PORT"

abbrev with_service : Database
with_service = record database { services = database_service ∷ []; last_service_id = 1 }

with_service-IsValid : Names.IsValid with_service
with_service-IsValid = record { names = (refl, tt); ids = (refl, tt); given = (omega arith, tt) }

services_stay_different_example :
    Names.IsValid (create_service sqlite database_service with_service).1
    × Names.IsValid (update_service sqlite database_service with_service).1
    × Names.IsValid (delete_service sqlite 1 with_service).1
services_stay_different_example =
    services_stay_different sqlite database_service 1 with_service with_service-IsValid

abbrev healthy : Sql
healthy = record { statement_error = λ v s. none; row_error = λ v s. none }

healthy-Runs : Runs healthy
healthy-Runs = record { statements = λ k h. refl; rows = λ v s. refl }

migrated_example : migrate healthy (at_version 26) ≡ (none, at_version migration_count)
migrated_example = migrated healthy healthy-Runs 26 (omega arith)

abbrev full_disk : Sql
full_disk = record {
  statement_error = λ v s. none;
  row_error = λ v s. some (message "disk is full");
}

interrupted_start_example :
    (migrate full_disk (at_version 0)
      ≡ (some (wrap "record migration 1" (message "disk is full")), only_users 0))
    × (migrate healthy (migrate full_disk (at_version 0)).1 ≡ (none, only_users migration_count))
interrupted_start_example =
    interrupted_start full_disk healthy (message "disk is full") refl refl (λ v s. refl)
