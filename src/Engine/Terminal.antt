-- ===== src/Engine/Terminal.antt =====
-- Every deploy that is run ends in a terminal status.
use project_talos.Prelude.{ℕ, String, ◌≡◌, refl, ◌≢◌, true, Option, none, some, Bool, false, true}
use project_talos.Domain.{App, Deploy, Error, is_terminal}
use project_talos.Action.{Action, ◌>>=◌}
use project_talos.Action.Triples.{Triple, Triple-if, after, Keeps}
use project_talos.Engine.Interface.{Environment}
use project_talos.Engine.Finish.{fail_deploy, finalize}
use project_talos.Engine.Execute.{stop_old, auto_rollback, start, execute}
use project_talos.Engine.Queue.{prepared, execute_queued}
use project_talos.Engine.Harmless.{Harmless}
use project_talos.Engine.AfterStart.{started_ends}
use project_talos.Engine.BeforeStart.{execute_walk}

-- The deploy that a run returns has ended, with a time of completion.
abbrev pub HasEnded : App × Deploy → Type 0
HasEnded (app, d) = (is_terminal d.status ≡ true) × (d.completed_at ≢ none)

module _ {W : Type 0} (env : Environment W) where
  -- No world is asked for.
  abbrev pub Anywhere : W → Type 0
  Anywhere _ = Unit

  pub anything : {A : Type 0} (m : Action W A) → Keeps Anywhere m
  anything m = record { at = λ w p. tt }

  pub harmless : (app : App) (n : ℕ) → Harmless env app n Anywhere
  harmless app n = record {
    now_keeps = anything _;
    update_deploy_keeps = λ d. anything _;
    update_app_keeps = λ a. anything _;
    create_deploy_event_keeps = λ e. anything _;
    publish_keeps = λ e. anything _;
    list_app_services_keeps = λ i. anything _;
    get_service_keeps = λ i. anything _;
    get_app_env_vars_keeps = λ i. anything _;
    get_app_env_vars_snapshot_keeps = λ i. anything _;
    pull_image_keeps = λ ref. anything _;
    wait_for_health_keeps = λ i t. anything _;
    update_route_keeps = λ name. anything _;
    stop_staging_keeps = λ d i. anything _;
    start_keeps = λ d env_vars i. anything _;
  }

  abbrev Ends : Action W (App × Deploy) → Type 0
  Ends m = Triple Anywhere m (λ r _. HasEnded r)

  then-Ends :
      {A : Type 0} (m : Action W A) (f : A → Action W (App × Deploy))
      → ((a : A) → Ends (f a))
      → Ends (m >>= f)
  then-Ends m f h = after m f (anything m) h

  finalize-Ends : (app : App) (d : Deploy) → Ends (finalize env app d)
  unfolding finalize ◌>>=◌
  finalize-Ends app d = record { at = λ w p. (refl, λ q. cc) }

  fail_deploy-Ends :
      (app : App) (d : Deploy) (reason : String) → Ends (fail_deploy env app d reason)
  unfolding fail_deploy ◌>>=◌
  fail_deploy-Ends app d reason = record { at = λ w p. (refl, λ q. cc) }

  auto_rollback-Ends : (app : App) (d : Deploy) (e : Error) → Ends (auto_rollback env app d e)
  unfolding auto_rollback ◌>>=◌
  auto_rollback-Ends app d e = record { at = λ w p. (refl, λ q. cc) }

  stop_old-Ends : (app : App) (d : Deploy) → Ends (stop_old env app d)
  unfolding stop_old
  stop_old-Ends app d = search (then-Ends, Triple-if, finalize-Ends) depth 8

  start-Ends : (app : App) (d : Deploy) → Ends (start env app d)
  unfolding start
  start-Ends app d = then-Ends _ _ λ env_vars. then-Ends _ _ λ _. then-Ends _ _ λ _.
      then-Ends _ _ λ r.
        started_ends env app d.id Anywhere _ (harmless app d.id) (λ e i. fail_deploy-Ends app e)
          (λ e i. auto_rollback-Ends app e) (λ e i. stop_old-Ends app e) d refl r

  execute-Ends : (app : App) (d : Deploy) (skip : Bool) → Ends (execute env app d skip)
  execute-Ends app d =
      execute_walk env app d.id d.image_ref Anywhere _ (harmless app d.id)
        (λ e i. fail_deploy-Ends app e) (λ e i. start-Ends app e) d (refl, refl)

  prepared-Ends : (app : App) (r : Deploy × Option Error) → Ends (prepared env app r)
  unfolding prepared
  prepared-Ends app (d, some e) = fail_deploy-Ends app d _
  prepared-Ends app (d, none) = execute-Ends app d true

  execute_queued-Ends : (app : App) (d : Deploy) → Ends (execute_queued env app d)
  unfolding execute_queued
  execute_queued-Ends app d = search (then-Ends, Triple-if, prepared-Ends, execute-Ends) depth 8

  -- Whatever the stores, Docker, the proxy and the builder answer, the goroutine of a deploy
  -- returns with the deploy in a terminal status and a time of completion; so does a rollback's.
  pub execute_queued_ends :
      (app : App) (d : Deploy) (w : W)
      → HasEnded (execute_queued env app d w).0 × HasEnded (execute env app d false w).0
  execute_queued_ends app d w =
      ((execute_queued-Ends app d).at w tt, (execute-Ends app d false).at w tt)
