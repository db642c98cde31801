-- ===== src/Engine/BeforeStart.antt =====
-- The stages of `execute` up to the start of the staging container, in the same way.
use project_talos.Prelude.{ℕ, String, ◌≡◌, Bool, true, false, Option, none, some}
use project_talos.Domain.{App, Deploy, Error}
use project_talos.Action.Triples.{Triple, after, Keeps}
use project_talos.Engine.Interface.{Environment}
use project_talos.Engine.Finish.{emit_event, fail_deploy}
use project_talos.Engine.Execute.{with_snapshot, start, pulled, pull, validated, execute}
use project_talos.Engine.Harmless.{Harmless, emit-Keeps, validate_env_vars-Keeps}

-- The deploy of the run, which has its id and its image
abbrev pub IsRun : ℕ → String → Deploy → Type 0
IsRun n image d = (d.id ≡ n) × (d.image_ref ≡ image)

with_snapshot-IsRun :
    (n : ℕ) (image : String) (d : Deploy) (o : Option String)
    → IsRun n image d
    → IsRun n image (with_snapshot d o)
with_snapshot-IsRun n image d none i = i
with_snapshot-IsRun n image d (some text) i = i

module _ {W : Type 0} (env : Environment W) (app : App) (n : ℕ) (image : String) (P : W → Type 0)
    (Q : App × Deploy → W → Type 0) (h : Harmless env app n P)
    (fail_deploy_ends : (d : Deploy)
      → IsRun n image d
      → (reason : String) → Triple P (fail_deploy env app d reason) Q)
    (start_ends : (d : Deploy) → IsRun n image d → Triple P (start env app d) Q) where
  emit : (id : ℕ) (level step text : String) → Keeps P (emit_event env id level step text)
  emit = emit-Keeps env app n P h

  pulled_ends :
      (d : Deploy) (i : IsRun n image d) (r : Option Error) → Triple P (pulled env app d r) Q
  unfolding pulled
  pulled_ends d i (some e) = after _ _ (emit _ _ _ _) λ _. fail_deploy_ends d i _
  pulled_ends d i none = after _ _ (emit _ _ _ _) λ _. start_ends d i

  pull_ends : (d : Deploy) (i : IsRun n image d) (skip : Bool) → Triple P (pull env app d skip) Q
  unfolding pull
  pull_ends d i true = after _ _ (emit _ _ _ _) λ _. start_ends d i
  pull_ends d i false = search (after, emit, h.pull_image_keeps, pulled_ends) depth 8

  validated_ends :
      (d : Deploy) (i : IsRun n image d) (skip : Bool) (r : Option Error)
      → Triple P (validated env app d skip r) Q
  unfolding validated
  validated_ends d i skip (some e) = after _ _ (emit _ _ _ _) λ _. fail_deploy_ends d i _
  validated_ends d i skip none =
      after _ _ (h.get_app_env_vars_snapshot_keeps _)
        λ r. pull_ends _ (with_snapshot-IsRun n image d (env.marshal_snapshot r) i) skip

  -- What holds at each end of a run holds of `execute`.
  pub execute_walk :
      (d : Deploy) (i : IsRun n image d) (skip : Bool) → Triple P (execute env app d skip) Q
  unfolding execute
  execute_walk d i skip = after _ _ h.now_keeps λ t. after _ _ (h.update_deploy_keeps _) λ _.
      after _ _ (emit _ _ _ _)
        λ _. after _ _ (validate_env_vars-Keeps env app n P h) λ r. validated_ends _ i skip r
