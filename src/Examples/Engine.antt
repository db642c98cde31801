-- ===== src/Examples/Engine.antt =====
-- The deploy engine on a Docker host, with a second version of the app `shop`.
use project_talos.Prelude.{
  ℕ, ◌+◌, String, ◌≡◌, ◌≢◌, refl, sym, ◌∙◌, arith, eq_iff, show, true, false, Option, none, some,
  List, [], ◌∷◌,
}
use project_talos.Domain.{DeployStatus, Error, message, deploy_in_progress, ok, err}
use project_talos.Action.{◌>>=◌}
use project_talos.Engine.Finish.{live_name, staging_name, finalize}
use project_talos.Engine.Execute.{
  requires_exclusive_cutover, route, stop_old, pull, start, auto_rollback, execute,
}
use project_talos.Engine.EnvVars.{missing_keys, validate_env_vars}
use project_talos.Proxy.{requires_exclusive_switch}
use project_talos.Store.{Database}
use project_talos.Store.Apps.{get_app}
use project_talos.Store.Deploys.{get_latest_deploy, create_deploy}
use project_talos.Engine.Queue.{execute_queued}
use project_talos.Engine.Request.{new_deploy, running_deploy_error, deploy, rollback}
use project_talos.Engine.Terminal.{HasEnded, execute_queued_ends}
use project_talos.Engine.Health.{IsHealthy, success-IsHealthy}
use project_talos.Engine.BlueGreen.{failed_deploy_keeps_live, rolled_back_exclusive_cutover}
use project_talos.Engine.Accept.{IsMadeFor, accepted_deploy}
use project_talos.Engine.Rollback.{IsRepeat, rollback_repeats}
use project_talos.Engine.Interface.{Environment}
use project_talos.Domain.Service.{AppEnvVar}
use project_talos.Engine.OneAtATime.{AllOlder, second_deploy_refused}
use project_talos.Examples.Values.{
  shop, port_shop, first_deploy, second_deploy, docker_host, is_running, stored_host,
  stored_host-IsStored, sqlite, database,
}
use project_talos.Examples.Laws.{sqlite-SortLaws, docker_host-ContainerLaws}

abbrev sick : Option Error
sick = some (message "container is unhealthy")

abbrev before : List String
before = "talos-shop-1" ∷ []

-- The staging container of the second deploy is not the live one.
two_names : live_name shop ≢ staging_name shop second_deploy
unfolding live_name staging_name show
two_names p = cc ((eq_iff (live_name shop) (staging_name shop second_deploy)).1 p)

two_port_names : live_name port_shop ≢ staging_name port_shop second_deploy
unfolding live_name staging_name show
two_port_names p = cc ((eq_iff (live_name port_shop) (staging_name port_shop second_deploy)).1 p)

sick_run :
    (execute (docker_host sick) shop second_deploy false before).0.1.status
    ≡ DeployStatus.auto_rollback
unfolding execute ◌>>=◌ validate_env_vars missing_keys pull start auto_rollback
sick_run = refl

shared : requires_exclusive_cutover (docker_host sick) shop ≡ false
unfolding requires_exclusive_cutover requires_exclusive_switch
shared = refl

failed_deploy_keeps_live_example :
    is_running (execute (docker_host sick) shop second_deploy false before).1 (live_name shop)
    ≡ is_running before (live_name shop)
failed_deploy_keeps_live_example =
    failed_deploy_keeps_live (docker_host sick) is_running (docker_host-ContainerLaws sick) shop
      second_deploy two_names shared false before (λ p. failed_run (sym sick_run ∙ p))
  where
    failed_run : DeployStatus.auto_rollback ≢ DeployStatus.success
    failed_run p = cc

exclusive : requires_exclusive_cutover (docker_host sick) port_shop ≡ true
unfolding requires_exclusive_cutover
exclusive = refl

port_named : live_name port_shop ≢ ""
unfolding live_name
port_named p = cc ((eq_iff (live_name port_shop) "").1 p)

sick_port_run :
    (execute (docker_host sick) port_shop second_deploy false before).0.1.status
    ≡ DeployStatus.auto_rollback
unfolding execute ◌>>=◌ validate_env_vars missing_keys pull start auto_rollback
sick_port_run = refl

rolled_back_exclusive_cutover_example :
    is_running
      (execute (docker_host sick) port_shop second_deploy false before).1
      (live_name port_shop)
    ≡ false
rolled_back_exclusive_cutover_example =
    rolled_back_exclusive_cutover (docker_host sick) is_running (docker_host-ContainerLaws sick)
      port_shop second_deploy two_port_names exclusive port_named (λ w. refl) false before
      sick_port_run

well_run :
    (execute (docker_host none) shop second_deploy false before).0.1.status ≡ DeployStatus.success
unfolding execute ◌>>=◌ validate_env_vars missing_keys pull start route requires_exclusive_switch
    stop_old live_name staging_name show requires_exclusive_cutover finalize
well_run = refl

success-IsHealthy_example :
    IsHealthy
      (docker_host none)
      shop
      2
      "ghcr.io/acme/shop:2"
      (execute (docker_host none) shop second_deploy false before).0.1
success-IsHealthy_example =
    success-IsHealthy (docker_host none) shop second_deploy false before well_run

execute_queued_ends_example :
    HasEnded (execute_queued (docker_host sick) shop second_deploy before).0
    × HasEnded (execute (docker_host sick) shop second_deploy false before).0
execute_queued_ends_example = execute_queued_ends (docker_host sick) shop second_deploy before

-- A request for the second version, on a host with nothing but the first deploy
requested :
    (deploy (docker_host none) 1 "ghcr.io/acme/shop:2" "" "main" "manual" before).0
    ≡ ok (shop, record (new_deploy 1 "ghcr.io/acme/shop:2" "" "main" "manual" none) { id = 2 })
unfolding deploy ◌>>=◌ running_deploy_error
requested = refl

accepted_deploy_example :
    (((docker_host none).get_app 1 before).0 ≡ ok shop)
    × IsMadeFor
        (docker_host none)
        1
        (new_deploy 1 "ghcr.io/acme/shop:2" "" "main" "manual" none)
        shop
        (record (new_deploy 1 "ghcr.io/acme/shop:2" "" "main" "manual" none) { id = 2 })
        before
accepted_deploy_example =
    accepted_deploy (docker_host none) 1 "ghcr.io/acme/shop:2" "" "main" "manual" shop
      (record (new_deploy 1 "ghcr.io/acme/shop:2" "" "main" "manual" none) { id = 2 }) before
      requested

abbrev busy : Database
busy = record database {
  deploys = first_deploy ∷ second_deploy ∷ [];
  last_deploy_id = 2;
  clock = 30;
}

stored_request :
    (deploy stored_host 1 "ghcr.io/acme/shop:2" "" "main" "manual" database).0
    ≡ ok (shop, record (new_deploy 1 "ghcr.io/acme/shop:2" "" "main" "manual" none) { id = 2 })
unfolding deploy ◌>>=◌ get_app running_deploy_error get_latest_deploy create_deploy
stored_request = refl

older : AllOlder 1 database
older = ((λ p. omega arith), tt)

abbrev later_by : ℕ → Database → Database
later_by n db = record db { clock = db.clock + n }

abbrev ten_seconds_later : Database
ten_seconds_later =
    later_by 10 (deploy stored_host 1 "ghcr.io/acme/shop:2" "" "main" "manual" database).1

second_deploy_refused_example :
    (deploy stored_host 1 "ghcr.io/acme/shop:3" "" "main" "push" ten_seconds_later).0
    ≡ err deploy_in_progress
second_deploy_refused_example =
    second_deploy_refused sqlite sqlite-SortLaws stored_host stored_host-IsStored 1
      "ghcr.io/acme/shop:2" "" "main" "manual" shop
      (record (new_deploy 1 "ghcr.io/acme/shop:2" "" "main" "manual" none) { id = 2 }) database
      older stored_request ten_seconds_later refl refl "ghcr.io/acme/shop:3" "" "main" "push"

-- A rollback on a host whose latest successful deploy is the first
rolled_back :
    (rollback (docker_host none) 1 before).0
    ≡ ok
        (shop, record (new_deploy 1 "ghcr.io/acme/shop:1" "" "main" "rollback" (some 1)) { id = 2 })
unfolding rollback ◌>>=◌
rolled_back = refl

rollback_repeats_example :
    (((docker_host none).get_app 1 before).0 ≡ ok shop)
    × IsRepeat
        (docker_host none)
        1
        shop
        (record (new_deploy 1 "ghcr.io/acme/shop:1" "" "main" "rollback" (some 1)) { id = 2 })
        before
rollback_repeats_example =
    rollback_repeats (docker_host none) 1 shop
      (record (new_deploy 1 "ghcr.io/acme/shop:1" "" "main" "rollback" (some 1)) { id = 2 }) before
      rolled_back

-- A host on which the app has a required variable without a value
abbrev unset : List AppEnvVar
unset =
    record { id = 1; app_id = 1; key = "TOKEN"; value = ""; is_secret = true; required = true } ∷ []

abbrev unset_host : Environment (List String)
unset_host = record (docker_host none) { get_app_env_vars = λ i w. (ok unset, w) }

abbrev Untouched : List String → Type 0
Untouched w = w ≡ before
