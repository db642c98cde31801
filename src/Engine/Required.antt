-- ===== src/Engine/Required.antt =====
-- internal/deploy/engine.go: a run without a required environment variable.
use project_talos.Prelude.{ℕ, String, ◌≡◌}
use project_talos.Domain.{App, Deploy, DeployStatus, DeployEvent}
use project_talos.Action.{effect}
use project_talos.Action.Triples.{Keeps}
use project_talos.Engine.Interface.{Environment}

-- A condition on the world that outlasts the clock, the updates of deploys, the events and the query
-- for the variables
pub record Outlasts {W : Type 0} (env : Environment W) (P : W → Type 0) : Type 0 where
  pub now_keeps : Keeps P env.now
  pub update_deploy_keeps : (d : Deploy) → Keeps P (env.update_deploy d)
  pub create_deploy_event_keeps : (e : DeployEvent) → Keeps P (env.create_deploy_event e)
  pub publish_keeps : (e : DeployEvent) → Keeps P (effect (env.publish e))
  pub get_app_env_vars_keeps : (id : ℕ) → Keeps P (env.get_app_env_vars id)

module _ {W : Type 0} (env : Environment W) (P : W → Type 0) (o : Outlasts env P) (app : App) where
  -- The deploy has failed for the reason, and `P` holds.
  abbrev Failed : String → App × Deploy → W → Type 0
  Failed reason r w = (r.1.status ≡ DeployStatus.failed) × (r.1.logs ≡ reason) × P w
