-- ===== src/Engine/Harmless.antt =====
-- Calls of the engine that a condition on the world outlasts, and the actions that are made of them.
use project_talos.Prelude.{ℕ, String, ◌≡◌, List, [], ◌∷◌}
use project_talos.Domain.{App, Deploy, DeployEvent, Result, ok, err}
use project_talos.Domain.Service.{AppService}
use project_talos.Action.{effect}
use project_talos.Action.Triples.{Triple-pure, after, Keeps}
use project_talos.Engine.Interface.{Environment}
use project_talos.Engine.EnvVars.{validate_env_vars, collect_links, links_or_none, collect_env_vars}
use project_talos.Engine.Finish.{staging_name, publish_stored, emit_event}
use project_talos.Engine.Execute.{container_config}

-- The calls that leave `P` alone, for the app `app` and its deploys with the id `n`.
pub record Harmless {W : Type 0} (env : Environment W) (app : App) (n : ℕ) (P : W → Type 0)
    : Type 0 where
  pub now_keeps : Keeps P env.now
  pub update_deploy_keeps : (d : Deploy) → Keeps P (env.update_deploy d)
  pub update_app_keeps : (a : App) → Keeps P (env.update_app a)
  pub create_deploy_event_keeps : (e : DeployEvent) → Keeps P (env.create_deploy_event e)
  pub publish_keeps : (e : DeployEvent) → Keeps P (effect (env.publish e))
  pub list_app_services_keeps : (id : ℕ) → Keeps P (env.list_app_services id)
  pub get_service_keeps : (id : ℕ) → Keeps P (env.get_service id)
  pub get_app_env_vars_keeps : (id : ℕ) → Keeps P (env.get_app_env_vars id)
  pub get_app_env_vars_snapshot_keeps : (id : ℕ) → Keeps P (env.get_app_env_vars_snapshot id)
  pub pull_image_keeps : (ref : String) → Keeps P (env.pull_image ref)
  pub wait_for_health_keeps : (id : String) (n : ℕ) → Keeps P (env.wait_for_health id n)
  pub update_route_keeps : (name : String) → Keeps P (env.update_route app name)
  -- the staging container
  pub stop_staging_keeps :
      (d : Deploy) → d.id ≡ n → Keeps P (env.stop_and_remove (staging_name app d))
  pub start_keeps :
      (d : Deploy) (env_vars : List String)
      → d.id ≡ n
      → Keeps P (env.start_container_with_config (container_config env app d env_vars))

module _ {W : Type 0} (env : Environment W) (app : App) (n : ℕ) (P : W → Type 0)
    (h : Harmless env app n P) where
  publish_stored-Keeps : (r : Result DeployEvent) → Keeps P (publish_stored env r)
  unfolding publish_stored
  publish_stored-Keeps (err e) = Triple-pure tt (λ w p. p)
  publish_stored-Keeps (ok e) = h.publish_keeps e

  pub emit-Keeps : (id : ℕ) (level step text : String) → Keeps P (emit_event env id level step text)
  unfolding emit_event
  emit-Keeps id level step text = after _ _ (h.create_deploy_event_keeps _) publish_stored-Keeps

  collect_links-Keeps :
      (links : List AppService) (acc : List String) → Keeps P (collect_links env links acc)
  unfolding collect_env_vars
  collect_links-Keeps [] acc = Triple-pure acc (λ w p. p)
  collect_links-Keeps (link ∷ links) acc =
      after _ _ (h.get_service_keeps _) λ r. collect_links-Keeps links _

  links_or_none-Keeps : (r : Result (List AppService)) → Keeps P (links_or_none env r)
  unfolding collect_env_vars
  links_or_none-Keeps (err e) = Triple-pure [] (λ w p. p)
  links_or_none-Keeps (ok links) = collect_links-Keeps links []

  pub collect_env_vars-Keeps : Keeps P (collect_env_vars env app)
  unfolding collect_env_vars
  collect_env_vars-Keeps = after _ _ (h.list_app_services_keeps _) λ r.
      after _ _ (links_or_none-Keeps r)
        λ _. after _ _ (h.get_app_env_vars_keeps _) λ _. Triple-pure _ (λ w p. p)

  pub validate_env_vars-Keeps : Keeps P (validate_env_vars env app)
  unfolding validate_env_vars
  validate_env_vars-Keeps = after _ _ (h.get_app_env_vars_keeps _) λ r. Triple-pure _ (λ w p. p)
