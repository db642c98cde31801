-- ===== src/Engine/Health.antt =====
-- internal/deploy/engine.go: a deploy succeeds only on a container that passed its health check.
use project_talos.Prelude.{
  ℕ, String, ◌<>◌, show, ◌≡◌, refl, sym, ap, ◌∙◌, subst, Bool, Option, none, some,
}
use project_talos.Domain.{App, Deploy, DeployStatus, Error, Result, ok, err}
use project_talos.Action.{Action, ◌>>=◌, ◌>>◌}
use project_talos.Action.Triples.{Triple, Triple-if, Triple-weaken, Triple-bind, after}
use project_talos.Engine.Interface.{Environment, ContainerConfig}
use project_talos.Engine.Finish.{emit_event, staging_name, fail_deploy, finalize}
use project_talos.Engine.Execute.{
  stop_old, routed, route, auto_rollback, checked, started, container_config, start, execute,
}
use project_talos.Engine.BeforeStart.{IsRun, execute_walk}
use project_talos.Engine.Terminal.{Anywhere, anything, harmless}

module _ {W : Type 0} (env : Environment W) (app : App) where
  -- The deploy has the id, the image, the container and the health that `d` has.
  abbrev SameContainer : Deploy → App × Deploy → Type 0
  SameContainer d r =
      (r.1.id ≡ d.id)
      × (r.1.image_ref ≡ d.image_ref)
      × (r.1.container_id ≡ d.container_id)
      × (r.1.health_status ≡ d.health_status)

  abbrev Stays : Deploy → Action W (App × Deploy) → Type 0
  Stays d m = Triple (Anywhere env) m (λ r _. SameContainer d r)

  finalize-Stays : (d : Deploy) → Stays d (finalize env app d)
  unfolding finalize ◌>>=◌
  finalize-Stays d = record { at = λ w p. (refl, refl, refl, refl) }

  fail_deploy-Stays : (d : Deploy) (reason : String) → Stays d (fail_deploy env app d reason)
  unfolding fail_deploy ◌>>=◌
  fail_deploy-Stays d reason = record { at = λ w p. (refl, refl, refl, refl) }

  then-Stays :
      {A : Type 0} (d : Deploy) (m : Action W A) (f : A → Action W (App × Deploy))
      → ((a : A) → Stays d (f a))
      → Stays d (m >>= f)
  then-Stays d m f h = after m f (anything env m) h

  stop_old-Stays : (d : Deploy) → Stays d (stop_old env app d)
  unfolding stop_old
  stop_old-Stays d = search (then-Stays, Triple-if, finalize-Stays) depth 8

  routed-Stays : (d : Deploy) (r : Option Error) → Stays d (routed env app d r)
  unfolding routed
  routed-Stays d (some e) = search (then-Stays, fail_deploy-Stays) depth 8
  routed-Stays d none = search (then-Stays, stop_old-Stays) depth 8

  route-Stays : (d : Deploy) → Stays d (route env app d)
  unfolding route
  route-Stays d = search (then-Stays, Triple-if, routed-Stays, stop_old-Stays) depth 10

  -- The world after the two events between the start of a container and its health check
  abbrev pub after_events : ℕ → String → W → W
  after_events id container_id w =
      (emit_event env id "info" "health_check" "waiting for health check (30s timeout)"
        (emit_event env id "info" "start" ("staging container started: " <> container_id) w).1).1

  -- A container for a deploy runs the image and has the name of its staging container.
  abbrev pub RunsImage : ℕ → String → ContainerConfig → Type 0
  RunsImage id image config =
      (config.image_ref ≡ image) × (config.name ≡ "talos-" <> app.name <> "-" <> show id)

  -- Docker started such a container as `container_id`, and after the two events that follow its
  -- health check, with a timeout of 30 s, was answered with `answer`.
  abbrev pub Checked : ℕ → String → String → Option Error → Type 0
  Checked id image container_id answer =
      (config : ContainerConfig) × (w : W) × RunsImage id image config
      × ((env.start_container_with_config config w).0 ≡ ok container_id)
      × ((env.wait_for_health container_id 30
            (after_events id container_id (env.start_container_with_config config w).1)).0
          ≡ answer)

  -- The deploy runs the image, in a container that was started and then passed its health check.
  abbrev pub IsHealthy : ℕ → String → Deploy → Type 0
  IsHealthy id image d =
      (d.id ≡ id)
      × (d.image_ref ≡ image)
      × (d.health_status ≡ "healthy")
      × Checked id image d.container_id none

  abbrev SucceedsHealthy : ℕ → String → App × Deploy → W → Type 0
  SucceedsHealthy n image r _ = r.1.status ≡ DeployStatus.success → IsHealthy n image r.1

  module _ (n : ℕ) (image : String) where
    fail_deploy-healthy :
        (d : Deploy) (reason : String)
        → Triple (Anywhere env) (fail_deploy env app d reason) (SucceedsHealthy n image)
    unfolding fail_deploy ◌>>=◌
    fail_deploy-healthy d reason = record { at = λ w p q. absurd cc }

    auto_rollback-healthy :
        (d : Deploy) (e : Error)
        → Triple (Anywhere env) (auto_rollback env app d e) (SucceedsHealthy n image)
    unfolding auto_rollback ◌>>=◌
    auto_rollback-healthy d e = record { at = λ w p q. absurd cc }

    checked-healthy :
        (d : Deploy) (r : Option Error)
        → IsRun n image d
        → Checked n image d.container_id r
        → Triple (Anywhere env) (checked env app d r) (SucceedsHealthy n image)
    unfolding checked
    checked-healthy d (some e) i p = auto_rollback-healthy d e
    checked-healthy d none i p = after _ _ (anything env _) λ _.
        Triple-weaken _
          (λ r w h q. (h.0 ∙ i.0, h.1 ∙ i.1, h.3, subst (λ c. Checked n image c none) (sym h.2) p))
          (route-Stays _)

    -- The world is the one after the start of the container.
    JustStarted : ContainerConfig → Result String → W → Type 0
    JustStarted config r w' =
        (w : W) × ((env.start_container_with_config config w).0 ≡ r)
        × ((env.start_container_with_config config w).1 ≡ w')

    started-healthy :
        (d : Deploy) (config : ContainerConfig) (r : Result String)
        → IsRun n image d
        → RunsImage n image config
        → Triple (JustStarted config r) (started env app d r) (SucceedsHealthy n image)
    unfolding started JustStarted ◌>>=◌ ◌>>◌
    started-healthy d config (err e) i c = record { at = λ w s. (fail_deploy-healthy d _).at _ tt }
    started-healthy d config (ok container_id) i c = record {
      at = λ w' (w, s, e).
          (checked-healthy (record d { container_id = container_id }) _ i
              (
                config,
                w,
                c,
                s,
                ap (λ v. (env.wait_for_health container_id 30 (after_events n container_id v)).0) e
                    ∙ ap
                        (λ id.
                          (env.wait_for_health container_id 30 (after_events id container_id w')).0)
                        (sym i.0),
              )).at
            _ tt;
    }

    start-healthy :
        (d : Deploy)
        → IsRun n image d
        → Triple (Anywhere env) (start env app d) (SucceedsHealthy n image)
    unfolding start container_config staging_name JustStarted
    start-healthy d i = after _ _ (anything env _) λ env_vars. after _ _ (anything env _) λ _.
        after _ _ (anything env _) λ _.
          Triple-bind {Q = λ r w'. JustStarted (container_config env app d env_vars) r w'} _ _
            (record { at = λ w p. (w, refl, refl) })
            λ r.
              started-healthy d (container_config env app d env_vars) r i
                (i.1, ap (λ id. "talos-" <> app.name <> "-" <> show id) i.0)

  -- A run that ends in success ends with the id and the image that it began with, and has recorded the
  -- deploy as healthy; its container was started from that image, under the name of the deploy's
  -- staging container, and passed the health check, with a timeout of 30 s, that came right after
  -- the events which report the start.
  pub success-IsHealthy :
      (d : Deploy) (skip : Bool) (w : W)
      → (execute env app d skip w).0.1.status ≡ DeployStatus.success
      → IsHealthy d.id d.image_ref (execute env app d skip w).0.1
  success-IsHealthy d skip w q =
      (execute_walk env app d.id d.image_ref (Anywhere env) (SucceedsHealthy d.id d.image_ref)
          (harmless env app d.id) (λ e i reason. fail_deploy-healthy d.id d.image_ref e reason)
          (start-healthy d.id d.image_ref) d (refl, refl) skip).at
        w tt q
