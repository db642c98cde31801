-- ===== src/Engine/AfterStart.antt =====
-- The stages of `execute` from the answer to the start of the staging container on: what holds at
-- each end holds of them.
use project_talos.Prelude.{ℕ, String, ◌≡◌, Option, none, some}
use project_talos.Domain.{App, Deploy, Error, Result, ok, err}
use project_talos.Action.Triples.{Triple, Triple-if, after, Keeps}
use project_talos.Engine.Interface.{Environment}
use project_talos.Engine.Finish.{emit_event, fail_deploy}
use project_talos.Engine.Execute.{stop_old, route, routed, auto_rollback, checked, started}
use project_talos.Engine.Harmless.{Harmless, emit-Keeps}

module _ {W : Type 0} (env : Environment W) (app : App) (n : ℕ) (P : W → Type 0)
    (Q : App × Deploy → W → Type 0) (h : Harmless env app n P)
    (fail_deploy_ends : (d : Deploy)
      → d.id ≡ n
      → (reason : String) → Triple P (fail_deploy env app d reason) Q)
    (auto_rollback_ends : (d : Deploy)
      → d.id ≡ n
      → (e : Error) → Triple P (auto_rollback env app d e) Q)
    (stop_old_ends : (d : Deploy) → d.id ≡ n → Triple P (stop_old env app d) Q) where
  emit : (id : ℕ) (level step text : String) → Keeps P (emit_event env id level step text)
  emit = emit-Keeps env app n P h

  routed_ends : (d : Deploy) (i : d.id ≡ n) (r : Option Error) → Triple P (routed env app d r) Q
  unfolding routed
  routed_ends d i (some e) =
      after _ _ (emit _ _ _ _) λ _. after _ _ (h.stop_staging_keeps d i) λ _. fail_deploy_ends d i _
  routed_ends d i none = after _ _ (emit _ _ _ _) λ _. stop_old_ends d i

  pub route_ends : (d : Deploy) (i : d.id ≡ n) → Triple P (route env app d) Q
  unfolding route
  route_ends d i =
      search (after, Triple-if, emit, h.update_route_keeps, routed_ends, stop_old_ends) depth 8

  checked_ends : (d : Deploy) (i : d.id ≡ n) (r : Option Error) → Triple P (checked env app d r) Q
  unfolding checked
  checked_ends d i (some e) = auto_rollback_ends d i e
  checked_ends d i none = after _ _ (emit _ _ _ _) λ _. route_ends _ i

  pub started_ends :
      (d : Deploy) (i : d.id ≡ n) (r : Result String) → Triple P (started env app d r) Q
  unfolding started
  started_ends d i (err e) = after _ _ (emit _ _ _ _) λ _. fail_deploy_ends d i _
  started_ends d i (ok container_id) =
      search (after, emit, h.wait_for_health_keeps, checked_ends) depth 8
