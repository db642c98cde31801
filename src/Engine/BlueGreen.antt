-- ===== src/Engine/BlueGreen.antt =====
-- Blue and green: what a run does to the container that serves the app.
use project_talos.Prelude.{
  ℕ, String, ◌≡◌, refl, ◌≢◌, ◌∙◌, sym, Bool, true, false, not, ◌&&◌, Option, none, some, ◌==◌,
  string_eq, eq_iff, arith,
}
use project_talos.Domain.{App, Deploy, DeployStatus, Error, Result}
use project_talos.Action.{Action, ◌>>=◌}
use project_talos.Action.Triples.{
  Triple, Triple-pure, Triple-if, Triple-if_eq, Triple-weaken, Triple-bind, after, Keeps,
}
use project_talos.Engine.Interface.{Environment}
use project_talos.Engine.Containers.{ContainerLaws}
use project_talos.Engine.Finish.{staging_name, live_name, emit_event, fail_deploy, finalize}
use project_talos.Engine.Execute.{
  requires_exclusive_cutover, stop_old, auto_rollback, report_cutover, stop_for_cutover, started,
  container_config, start, execute,
}
use project_talos.Engine.Harmless.{Harmless, emit-Keeps, collect_env_vars-Keeps}
use project_talos.Engine.AfterStart.{started_ends}
use project_talos.Engine.BeforeStart.{execute_walk}
use project_talos.Engine.Terminal.{Anywhere, anything, harmless}

failed≢auto_rollback : DeployStatus.failed ≢ DeployStatus.auto_rollback
failed≢auto_rollback p = cc

auto_rollback≢success : DeployStatus.auto_rollback ≢ DeployStatus.success
auto_rollback≢success p = cc

module _ {W : Type 0} (env : Environment W) (running : W → String → Bool)
    (laws : ContainerLaws env running) (app : App) (d₀ : Deploy)
    (live_ne_staging : live_name app ≢ staging_name app d₀) where
  same_staging : (d : Deploy) → d.id ≡ d₀.id → staging_name app d ≢ live_name app
  unfolding staging_name
  same_staging d i p = live_ne_staging (sym p ∙ cc)

  -- The live container is up, or is down, as `v` says.
  abbrev LiveIs : Bool → W → Type 0
  LiveIs v w = running w (live_name app) ≡ v

  live_harmless : (v : Bool) → Harmless env app d₀.id (LiveIs v)
  unfolding container_config
  live_harmless v = record {
    now_keeps = record { at = λ w p. laws.now_same w _ ∙ p };
    update_deploy_keeps = λ d. record { at = λ w p. laws.update_deploy_same d w _ ∙ p };
    update_app_keeps = λ a. record { at = λ w p. laws.update_app_same a w _ ∙ p };
    create_deploy_event_keeps = λ e. record { at = λ w p. laws.create_deploy_event_same e w _ ∙ p };
    publish_keeps = λ e. record { at = λ w p. laws.publish_same e w _ ∙ p };
    list_app_services_keeps = λ i. record { at = λ w p. laws.list_app_services_same i w _ ∙ p };
    get_service_keeps = λ i. record { at = λ w p. laws.get_service_same i w _ ∙ p };
    get_app_env_vars_keeps = λ i. record { at = λ w p. laws.get_app_env_vars_same i w _ ∙ p };
    get_app_env_vars_snapshot_keeps =
        λ i. record { at = λ w p. laws.get_app_env_vars_snapshot_same i w _ ∙ p };
    pull_image_keeps = λ ref. record { at = λ w p. laws.pull_image_same ref w _ ∙ p };
    wait_for_health_keeps = λ c n. record { at = λ w p. laws.wait_for_health_same c n w _ ∙ p };
    update_route_keeps = λ c. record { at = λ w p. laws.update_route_same app c w _ ∙ p };
    stop_staging_keeps =
        λ d i. record { at = λ w p. laws.stop_others_same _ w _ (same_staging d i) ∙ p };
    start_keeps =
        λ d env_vars i. record { at = λ w p. laws.start_others_same _ w _ (same_staging d i) ∙ p };
  }

  emit :
      (v : Bool) (i : ℕ) (level step text : String)
      → Keeps (LiveIs v) (emit_event env i level step text)
  emit v = emit-Keeps env app d₀.id (LiveIs v) (live_harmless v)

  fail_deploy-Keeps :
      (v : Bool) (d : Deploy) (reason : String) → Keeps (LiveIs v) (fail_deploy env app d reason)
  unfolding fail_deploy
  fail_deploy-Keeps v d reason = after _ _ (live_harmless v).now_keeps λ t.
      after _ _ ((live_harmless v).update_deploy_keeps _)
        λ _. after _ _ (emit v _ _ _ _) λ _. Triple-pure _ (λ w p. p)

  auto_rollback-Keeps :
      (v : Bool) (d : Deploy)
      → d.id ≡ d₀.id
      → (e : Error) → Keeps (LiveIs v) (auto_rollback env app d e)
  unfolding auto_rollback
  auto_rollback-Keeps v d i e = after _ _ (emit v _ _ _ _) λ _. after _ _ (emit v _ _ _ _) λ _.
      after _ _ ((live_harmless v).stop_staging_keeps d i) λ _.
        after _ _ (live_harmless v).now_keeps λ t.
          after _ _ ((live_harmless v).update_deploy_keeps _)
            λ _. after _ _ (emit v _ _ _ _) λ _. Triple-pure _ (λ w p. p)

  finalize-success :
      (d : Deploy)
      → Triple (Anywhere env) (finalize env app d) (λ r _. r.1.status ≡ DeployStatus.success)
  unfolding finalize ◌>>=◌
  finalize-success d = record { at = λ w p. refl }

  pub stop_old-success :
      (d : Deploy)
      → Triple (Anywhere env) (stop_old env app d) (λ r _. r.1.status ≡ DeployStatus.success)
  unfolding stop_old
  stop_old-success d =
      Triple-if _ _ _
        (after _ _ (anything env _)
          λ _. after _ _ (anything env _) λ _. after _ _ (anything env _) λ _. finalize-success d)
        (finalize-success d)

  -- Up or down as `v` says, unless the deploy has succeeded.
  abbrev KeptUp : Bool → App × Deploy → W → Type 0
  KeptUp v r w = r.1.status ≢ DeployStatus.success → LiveIs v w

  kept :
      {v : Bool} (m : Action W (App × Deploy)) → Keeps (LiveIs v) m → Triple (LiveIs v) m (KeptUp v)
  kept m h = Triple-weaken m (λ r w p q. p) h

  stop_old-kept : (v : Bool) (d : Deploy) → Triple (LiveIs v) (stop_old env app d) (KeptUp v)
  stop_old-kept v d = record { at = λ w p q. absurd (q ((stop_old-success d).at w tt)) }

  -- From the call that starts the staging container on.
  pub started-kept :
      (v : Bool) (d : Deploy)
      → d.id ≡ d₀.id
      → (r : Result String) → Triple (LiveIs v) (started env app d r) (KeptUp v)
  started-kept v =
      started_ends env app d₀.id (LiveIs v) (KeptUp v) (live_harmless v)
        (λ d i reason. kept _ (fail_deploy-Keeps v d reason))
        (λ d i e. kept _ (auto_rollback-Keeps v d i e)) (λ d i. stop_old-kept v d)

  stop_for_cutover-nothing :
      requires_exclusive_cutover env app ≡ false
      → (v : Bool) (d : Deploy) → Keeps (LiveIs v) (stop_for_cutover env app d)
  unfolding stop_for_cutover
  stop_for_cutover-nothing shared v d =
      Triple-if_eq (requires_exclusive_cutover env app && not (live_name app == "")) _ _
        (λ p. ground (arith, shared, p)) (λ p. Triple-pure _ (λ w q. q))

  report_cutover-Keeps :
      (v : Bool) (d : Deploy) (r : Option Error) → Keeps (LiveIs v) (report_cutover env d r)
  unfolding report_cutover
  report_cutover-Keeps v d none = Triple-pure _ (λ w p. p)
  report_cutover-Keeps v d (some e) = emit v _ _ _ _

  start-kept :
      requires_exclusive_cutover env app ≡ false
      → (v : Bool) (d : Deploy) → d.id ≡ d₀.id
      → Triple (LiveIs v) (start env app d) (KeptUp v)
  unfolding start
  start-kept shared v d i =
      after _ _ (collect_env_vars-Keeps env app d₀.id (LiveIs v) (live_harmless v)) λ env_vars.
        after _ _ (emit v _ _ _ _) λ _.
          after _ _ (stop_for_cutover-nothing shared v d)
            λ _. after _ _ ((live_harmless v).start_keeps d env_vars i) λ r. started-kept v d i r

  execute-kept :
      requires_exclusive_cutover env app ≡ false
      → (v skip : Bool) → Triple (LiveIs v) (execute env app d₀ skip) (KeptUp v)
  execute-kept shared v skip =
      execute_walk env app d₀.id d₀.image_ref (LiveIs v) (KeptUp v) (live_harmless v)
        (λ d i reason. kept _ (fail_deploy-Keeps v d reason)) (λ d i. start-kept shared v d i.0) d₀
        (refl, refl) skip

  -- While the new container can run beside the old one (`requires_exclusive_cutover` is false), and
  -- the live container has another name than the staging container, a run that does not end in
  -- success leaves the live container as it was, at every step that can fail.
  pub failed_deploy_keeps_live :
      requires_exclusive_cutover env app ≡ false
      → (skip : Bool) (w : W) → (execute env app d₀ skip w).0.1.status ≢ DeployStatus.success
      → running (execute env app d₀ skip w).1 (live_name app) ≡ running w (live_name app)
  failed_deploy_keeps_live shared skip w q =
      (execute-kept shared (running w (live_name app)) skip).at w refl q

  -- The live container is down, if the deploy was rolled back.
  abbrev LeftDown : App × Deploy → W → Type 0
  LeftDown r w = r.1.status ≡ DeployStatus.auto_rollback → LiveIs false w

  fail_deploy-left :
      (d : Deploy) (reason : String) → Triple (Anywhere env) (fail_deploy env app d reason) LeftDown
  unfolding fail_deploy ◌>>=◌
  fail_deploy-left d reason = record { at = λ w p q. absurd (failed≢auto_rollback q) }

  module _ (exclusive : requires_exclusive_cutover env app ≡ true) (named : live_name app ≢ "")
      (stops : (w : W) → (env.stop_and_remove (live_name app) w).0 ≡ none) where
    stop_for_cutover-down :
        (d : Deploy) → Triple (Anywhere env) (stop_for_cutover env app d) (λ _. LiveIs false)
    unfolding stop_for_cutover
    stop_for_cutover-down d =
        Triple-if_eq (requires_exclusive_cutover env app && not (live_name app == "")) _ _
          (λ p. after _ _ (anything env _) λ _.
            Triple-bind {Q = λ _. LiveIs false} _ _
              (record { at = λ w q. laws.stopped _ w (stops w) })
              λ r. report_cutover-Keeps false d r)
          (λ p. absurd (named ((eq_iff _ _).0 (ground (arith, exclusive, p)))))

    start-left : (d : Deploy) → d.id ≡ d₀.id → Triple (Anywhere env) (start env app d) LeftDown
    unfolding start
    start-left d i = after _ _ (anything env _) λ env_vars. after _ _ (anything env _) λ _.
        Triple-bind _ _ (stop_for_cutover-down d) λ _.
          after _ _ ((live_harmless false).start_keeps d env_vars i) λ r.
            Triple-weaken _ (λ a w h q. h (λ s. auto_rollback≢success (sym q ∙ s)))
              (started-kept false d i r)

    -- Where the old container is stopped first (port mode, or the labels of an external proxy), and
    -- Docker stops it without an error, a run that ends rolled back leaves it down.
    pub rolled_back_exclusive_cutover :
        (skip : Bool) (w : W)
        → (execute env app d₀ skip w).0.1.status ≡ DeployStatus.auto_rollback
        → running (execute env app d₀ skip w).1 (live_name app) ≡ false
    rolled_back_exclusive_cutover skip w q =
        (execute_walk env app d₀.id d₀.image_ref (Anywhere env) LeftDown (harmless env app d₀.id)
            (λ d i reason. fail_deploy-left d reason) (λ d i. start-left d i.0) d₀ (refl, refl)
            skip).at
          w tt q
