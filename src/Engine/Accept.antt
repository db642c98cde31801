-- ===== src/Engine/Accept.antt =====
-- internal/deploy/engine.go: which deploys are accepted.
use project_talos.Prelude.{
  ℕ, String, ◌≡◌, ◌≢◌, refl, sym, ap, ◌∙◌, subst, true, false, Option, none, some, Bool-cases, inl,
  inr, arith,
}
use project_talos.Domain.{
  App, AppType, Deploy, DeployStatus, Error, not_found, deploy_in_progress, message, wrap, Result,
  ok, err, eq_not_found,
}
use project_talos.Action.{◌>>=◌}
use project_talos.Engine.Interface.{Environment}
use project_talos.Engine.Request.{
  is_managed, is_in_progress, new_deploy, created, running_deploy_error, enqueue, deploy_app,
  deploy,
}

-- No deploy is under way, to judge by the answer to a query for the latest deploy.
abbrev pub IsFree : Result Deploy → Type 0
IsFree (ok latest) = (latest.status ≢ DeployStatus.pending) × (latest.status ≢ DeployStatus.running)
IsFree (err e) = e ≡ not_found

pub is_managed-eq : (t : AppType) → is_managed t ≡ true → t ≡ AppType.managed
is_managed-eq AppType.managed h = refl
is_managed-eq AppType.adopted_container h = absurd cc
is_managed-eq AppType.external_service h = absurd cc
is_managed-eq (AppType.other _) h = absurd cc

not_in_progress :
    (s : DeployStatus)
    → is_in_progress s ≡ false
    → (s ≢ DeployStatus.pending) × (s ≢ DeployStatus.running)
not_in_progress s h = ((λ p. cc (ap is_in_progress p)), (λ p. cc (ap is_in_progress p)))

over :
    (s : DeployStatus)
    → s ≢ DeployStatus.pending
    → s ≢ DeployStatus.running
    → is_in_progress s ≡ false
over DeployStatus.pending h k = absurd (h refl)
over DeployStatus.running h k = absurd (k refl)
over DeployStatus.success h k = refl
over DeployStatus.failed h k = refl
over DeployStatus.rollback h k = refl
over DeployStatus.auto_rollback h k = refl

eq_not_found-eq : (e : Error) → eq_not_found e ≡ true → e ≡ not_found
eq_not_found-eq not_found h = refl
eq_not_found-eq Error.conflict h = absurd cc
eq_not_found-eq deploy_in_progress h = absurd cc
eq_not_found-eq Error.unauthorized h = absurd cc
eq_not_found-eq Error.invalid_input h = absurd cc
eq_not_found-eq (message _) h = absurd cc
eq_not_found-eq (wrap _ _) h = absurd cc

module _ {W : Type 0} (env : Environment W) where
  open env use {get_app, create_deploy, get_latest_deploy, get_latest_successful_deploy}

  pub created-eq-ok :
      (app a : App) (d : Deploy) (context : String) (r : Result Deploy)
      → created app context r ≡ ok (a, d)
      → (app ≡ a) × (r ≡ ok d)
  unfolding created
  created-eq-ok app a d context (err e) h = absurd cc
  created-eq-ok app a d context (ok d') h = (cc, cc)

  IsFree-of_no_error : (latest : Result Deploy) → running_deploy_error latest ≡ none → IsFree latest
  unfolding running_deploy_error
  IsFree-of_no_error (ok latest) h = not_in_progress latest.status (ground (arith, h))
  IsFree-of_no_error (err e) h = eq_not_found-eq e (ground (arith, h))

  no_error_of_free : (latest : Result Deploy) → IsFree latest → running_deploy_error latest ≡ none
  unfolding running_deploy_error
  no_error_of_free (ok latest) h = rw (over latest.status h.0 h.1) refl
  no_error_of_free (err e) h = rw (h) refl

  enqueue-eq-ok :
      (app a : App) (d₀ d : Deploy) (e : Option Error) (w : W)
      → (enqueue env app d₀ e w).0 ≡ ok (a, d)
      → (e ≡ none) × (app ≡ a) × ((create_deploy d₀ w).0 ≡ ok d)
  unfolding enqueue ◌>>=◌
  enqueue-eq-ok app a d₀ d none w h = let h' = created-eq-ok app a d _ _ h in (refl, h'.0, h'.1)
  enqueue-eq-ok app a d₀ d (some e) w h = absurd cc

  -- `d` is the row that was made of `d₀` for the managed app `a`, which was free.
  abbrev pub IsMadeFor : ℕ → Deploy → App → Deploy → W → Type 0
  IsMadeFor app_id d₀ a d w =
      (a.app_type ≡ AppType.managed)
      × IsFree (get_latest_deploy app_id w).0
      × ((create_deploy d₀ (get_latest_deploy app_id w).1).0 ≡ ok d)

  deploy_app-eq-ok :
      (image_ref commit_sha branch triggered_by : String) (app_id : ℕ) (r : Result App) (a : App)
      (d : Deploy) (w : W)
      → (deploy_app env image_ref commit_sha branch triggered_by app_id r w).0 ≡ ok (a, d)
      → (r ≡ ok a)
        × IsMadeFor app_id (new_deploy app_id image_ref commit_sha branch triggered_by none) a d w
  unfolding deploy_app ◌>>=◌
  deploy_app-eq-ok image_ref commit_sha branch triggered_by app_id (err e) a d w h = absurd cc
  deploy_app-eq-ok image_ref commit_sha branch triggered_by app_id (ok app) a d w h =
      elim (Bool-cases (is_managed app.app_type)) [
        | inl p ↦ enqueued p (enqueue-eq-ok app a _ d _ _ (sym (ap (λ r. r.0) (managed p)) ∙ h))
        | inr p ↦ absurd (refused p)
      ]
    where
      managed :
          is_managed app.app_type ≡ true
          → deploy_app env image_ref commit_sha branch triggered_by app_id (ok app) w
            ≡ enqueue env app
                (new_deploy app_id image_ref commit_sha branch triggered_by none)
                (running_deploy_error (get_latest_deploy app_id w).0)
                (get_latest_deploy app_id w).1
      managed p = rw (p) refl

      refused : is_managed app.app_type ≡ false → ⊥
      refused p =
          let q : (deploy_app env image_ref commit_sha branch triggered_by app_id (ok app) w).0
              ≡ err (message "deploys are only supported for managed apps") =
            rw (p) refl in
          cc

      enqueued :
          is_managed app.app_type ≡ true
          → (running_deploy_error (get_latest_deploy app_id w).0 ≡ none)
            × (app ≡ a)
            × ((create_deploy
                  (new_deploy app_id image_ref commit_sha branch triggered_by none)
                  (get_latest_deploy app_id w).1).0
                ≡ ok d)
          → (ok app ≡ ok a)
            × IsMadeFor app_id
                (new_deploy app_id image_ref commit_sha branch triggered_by none)
                a
                d
                w
      enqueued p (e, q, c) = (
        ap ok q,
        (
          subst (λ x. x.app_type ≡ AppType.managed) q (is_managed-eq app.app_type p),
          IsFree-of_no_error _ e,
          c,
        ),
      )

  -- A deploy that is accepted is for a managed app that was found, when the latest deploy of the app
  -- was not running or pending (or there was none), and is the row that the store then created from
  -- the request, as a pending deploy.
  pub accepted_deploy :
      (app_id : ℕ) (image_ref commit_sha branch triggered_by : String) (a : App) (d : Deploy)
      (w : W)
      → (deploy env app_id image_ref commit_sha branch triggered_by w).0 ≡ ok (a, d)
      → ((get_app app_id w).0 ≡ ok a)
        × IsMadeFor app_id
            (new_deploy app_id image_ref commit_sha branch triggered_by none)
            a
            d
            (get_app app_id w).1
  unfolding deploy ◌>>=◌
  accepted_deploy app_id image_ref commit_sha branch triggered_by a d w h =
      deploy_app-eq-ok image_ref commit_sha branch triggered_by app_id (get_app app_id w).0 a d
        (get_app app_id w).1 h

  -- While the latest deploy of a managed app is running or pending, a request is refused, and nothing
  -- is called but the two queries.
  pub refused_in_progress :
      (app_id : ℕ) (image_ref commit_sha branch triggered_by : String) (a : App) (latest : Deploy)
      (w : W)
      → (get_app app_id w).0 ≡ ok a
      → a.app_type ≡ AppType.managed
      → (get_latest_deploy app_id (get_app app_id w).1).0 ≡ ok latest
      → is_in_progress latest.status ≡ true
      → deploy env app_id image_ref commit_sha branch triggered_by w
        ≡ (err deploy_in_progress, (get_latest_deploy app_id (get_app app_id w).1).1)
  unfolding deploy deploy_app enqueue running_deploy_error ◌>>=◌
  refused_in_progress app_id image_ref commit_sha branch triggered_by a latest w g m l p =
      rw (g, m, l, p) refl

  -- A request that finds the app free leaves the world that the creation of its deploy leaves.
  pub runs_when_free :
      (app_id : ℕ) (image_ref commit_sha branch triggered_by : String) (a : App) (w : W)
      → (get_app app_id w).0 ≡ ok a
      → a.app_type ≡ AppType.managed
      → IsFree (get_latest_deploy app_id (get_app app_id w).1).0
      → (deploy env app_id image_ref commit_sha branch triggered_by w).1
        ≡ (create_deploy
            (new_deploy app_id image_ref commit_sha branch triggered_by none)
            (get_latest_deploy app_id (get_app app_id w).1).1).1
  unfolding deploy deploy_app enqueue ◌>>=◌
  runs_when_free app_id image_ref commit_sha branch triggered_by a w g m l =
      rw (g, m, no_error_of_free _ l) refl
