-- ===== src/Engine/Containers.antt =====
-- What the calls of internal/deploy/engine.go do to the containers: which of them is up.
use project_talos.Prelude.{ℕ, String, ◌≡◌, ◌≢◌, Bool, false, none}
use project_talos.Domain.{App, Deploy, DeployEvent}
use project_talos.Engine.Interface.{Environment, ContainerConfig}

-- `running w name`: the container `name` is up in the world `w`. Docker's stop, remove, create and
-- start act on the container they name; nothing else that the engine calls starts or stops one.
pub record ContainerLaws {W : Type 0} (env : Environment W) (running : W → String → Bool)
    : Type 0 where
  pub now_same : (w : W) (name : String) → running (env.now w).1 name ≡ running w name
  pub update_deploy_same :
      (d : Deploy) (w : W) (name : String) → running (env.update_deploy d w).1 name ≡ running w name
  pub update_app_same :
      (a : App) (w : W) (name : String) → running (env.update_app a w).1 name ≡ running w name
  pub create_deploy_event_same :
      (e : DeployEvent) (w : W) (name : String)
      → running (env.create_deploy_event e w).1 name ≡ running w name
  pub publish_same :
      (e : DeployEvent) (w : W) (name : String) → running (env.publish e w) name ≡ running w name
  pub list_app_services_same :
      (i : ℕ) (w : W) (name : String) → running (env.list_app_services i w).1 name ≡ running w name
  pub get_service_same :
      (i : ℕ) (w : W) (name : String) → running (env.get_service i w).1 name ≡ running w name
  pub get_app_env_vars_same :
      (i : ℕ) (w : W) (name : String) → running (env.get_app_env_vars i w).1 name ≡ running w name
  pub get_app_env_vars_snapshot_same :
      (i : ℕ) (w : W) (name : String)
      → running (env.get_app_env_vars_snapshot i w).1 name ≡ running w name
  pub pull_image_same :
      (ref : String) (w : W) (name : String)
      → running (env.pull_image ref w).1 name ≡ running w name
  pub wait_for_health_same :
      (i : String) (n : ℕ) (w : W) (name : String)
      → running (env.wait_for_health i n w).1 name ≡ running w name
  pub update_route_same :
      (a : App) (c : String) (w : W) (name : String)
      → running (env.update_route a c w).1 name ≡ running w name
  pub stop_others_same :
      (c : String) (w : W) (name : String)
      → c ≢ name
      → running (env.stop_and_remove c w).1 name ≡ running w name
  pub start_others_same :
      (cfg : ContainerConfig) (w : W) (name : String)
      → cfg.name ≢ name
      → running (env.start_container_with_config cfg w).1 name ≡ running w name
  -- a container that was stopped and removed without an error is gone
  pub stopped :
      (c : String) (w : W)
      → (env.stop_and_remove c w).0 ≡ none
      → running (env.stop_and_remove c w).1 c ≡ false
