-- ===== src/Engine/Rollback.antt =====
-- internal/deploy/engine.go: what a rollback deploys.
use project_talos.Prelude.{
  ℕ, ◌≡◌, refl, sym, ap, ◌∙◌, subst, true, false, some, Bool-cases, inl, inr,
}
use project_talos.Domain.{App, AppType, Deploy, DeployStatus, message, Result, ok, err}
use project_talos.Action.{◌>>=◌}
use project_talos.Engine.Interface.{Environment}
use project_talos.Engine.Request.{is_managed, new_deploy, roll_back_to, rollback_app, rollback}
use project_talos.Engine.Accept.{created-eq-ok, is_managed-eq}

module _ {W : Type 0} (env : Environment W) where
  open env use {get_app, create_deploy, get_latest_successful_deploy}

  -- A pending deploy of an app with the image and the branch of `prev`, which names it
  abbrev pub Repeats : ℕ → Deploy → Deploy → Type 0
  Repeats app_id prev new =
      (new.app_id ≡ app_id)
      × (new.image_ref ≡ prev.image_ref)
      × (new.branch ≡ prev.branch)
      × (new.status ≡ DeployStatus.pending)
      × (new.triggered_by ≡ "rollback")
      × (new.rollback_of_id ≡ some prev.id)

  -- `d` is the row that was made to run the latest successful deploy of the managed app `a` again.
  abbrev pub IsRepeat : ℕ → App → Deploy → W → Type 0
  IsRepeat app_id a d w =
      (a.app_type ≡ AppType.managed)
      × ((prev : Deploy) × (new : Deploy) × ((get_latest_successful_deploy app_id w).0 ≡ ok prev)
          × Repeats app_id prev new
          × ((create_deploy new (get_latest_successful_deploy app_id w).1).0 ≡ ok d))

  roll_back_to-eq-ok :
      (app a : App) (app_id : ℕ) (d : Deploy) (r : Result Deploy) (w : W)
      → (roll_back_to env app app_id r w).0 ≡ ok (a, d)
      → (app ≡ a)
        × ((prev : Deploy) × (new : Deploy) × (r ≡ ok prev)
            × Repeats app_id prev new
            × ((create_deploy new w).0 ≡ ok d))
  unfolding roll_back_to ◌>>=◌
  roll_back_to-eq-ok app a app_id d (err e) w h = absurd cc
  roll_back_to-eq-ok app a app_id d (ok prev) w h =
      let h' = created-eq-ok env app a d _ _ h in
      (
        h'.0,
        (
          prev,
          new_deploy app_id prev.image_ref "" prev.branch "rollback" (some prev.id),
          refl,
          (refl, refl, refl, refl, refl, refl),
          h'.1,
        ),
      )

  rollback_app-eq-ok :
      (app_id : ℕ) (r : Result App) (a : App) (d : Deploy) (w : W)
      → (rollback_app env app_id r w).0 ≡ ok (a, d)
      → (r ≡ ok a) × IsRepeat app_id a d w
  unfolding rollback_app ◌>>=◌
  rollback_app-eq-ok app_id (err e) a d w h = absurd cc
  rollback_app-eq-ok app_id (ok app) a d w h = elim (Bool-cases (is_managed app.app_type)) [
    | inl p ↦
        let h' = roll_back_to-eq-ok app a app_id d _ _ (sym (ap (λ r. r.0) (managed p)) ∙ h) in
        (
          ap ok h'.0,
          (subst (λ x. x.app_type ≡ AppType.managed) h'.0 (is_managed-eq app.app_type p), h'.1),
        )
    | inr p ↦ absurd (refused p)
  ]
    where
      managed :
          is_managed app.app_type ≡ true
          → rollback_app env app_id (ok app) w
            ≡ roll_back_to env app app_id
                (get_latest_successful_deploy app_id w).0
                (get_latest_successful_deploy app_id w).1
      managed p = rw (p) refl

      refused : is_managed app.app_type ≡ false → ⊥
      refused p =
          let q : (rollback_app env app_id (ok app) w).0
              ≡ err (message "rollbacks are only supported for managed apps") =
            rw (p) refl in
          cc

  -- A rollback that is accepted is for a managed app that was found, and is the row that the store
  -- made of a pending deploy with the image and the branch of the app's latest successful deploy,
  -- which it names; whether a deploy is in progress is not asked.
  pub rollback_repeats :
      (app_id : ℕ) (a : App) (d : Deploy) (w : W)
      → (rollback env app_id w).0 ≡ ok (a, d)
      → ((get_app app_id w).0 ≡ ok a) × IsRepeat app_id a d (get_app app_id w).1
  unfolding rollback ◌>>=◌
  rollback_repeats app_id a d w h =
      rollback_app-eq-ok app_id (get_app app_id w).0 a d (get_app app_id w).1 h
